-- ===== src/Ops/Clients/Collected.antt =====
-- What fanInRequests delivers.
use mathlib.Core.List.{perm_middle, append_assoc, append-nil, map-append}
use mathlib.Core.List.Perm
use Prim.Native.String.{String}
use ddrop.Base.{
  ℕ, suc, ◌+◌, ◌<◌, ◌≡◌, refl, sym, ap, ◌∙◌, subst, true, false, List, [], ◌∷◌, ◌++◌, map, length,
  length-append, Perm, arith, length-eq_of_perm, length-zero,
}
use ddrop.Ops.Clients.Places.{ask-perm, take_selected, take_buffered, take_dropped, length-parts}
use ddrop.Ops.Answers.{ClientResult}
use ddrop.Ops.Clients.{FanInRequestsArgs, FanIn, fan_in_requests, asked, FanStep, FanRun}

module _ {ℓ} {T : Type ℓ} where
  -- The results that have been sent or dropped, and those that are to come.
  abbrev pub over : FanIn T → List (ClientResult T)
  over p = p.received ++ (p.buffer ++ p.dropped)

module _ {ℓ} {T : Type ℓ} (args : FanInRequestsArgs T) where
  abbrev pub to_come : FanIn T → List (ClientResult T)
  to_come p = map (asked args) p.to_start ++ (map (asked args) p.asking ++ p.selecting)

  pub record IsFannedIn (p : FanIn T) : Type ℓ where
    pub accounted : Perm (to_come p ++ over p) (map (asked args) args.addrs)
    pub counted : p.done ≡ length (over p)
    pub behind : p.closed ≡ true → p.done ≡ length args.addrs
    pub in_time : p.ctx_done ≡ false → p.dropped ≡ []

module _ {ℓ} {T : Type ℓ} (args : FanInRequestsArgs T) where
  length-map : (addrs : List String) → length (map (asked args) addrs) ≡ length addrs
  length-map [] = refl
  length-map (a ∷ addrs) = ap suc (length-map addrs)

  abbrev pub left_over : FanIn T → ℕ
  left_over p = length p.to_start + length p.asking + length p.selecting

  -- The requests are under way, or over.
  pub left_and_over : {p : FanIn T} → IsFannedIn args p → left_over p + p.done ≡ length args.addrs
  left_and_over {p} h = omega (
    arith,
    length-eq_of_perm h.accounted,
    h.counted,
    length-map args.addrs,
    length-map p.to_start,
    length-map p.asking,
    length-append (to_come args p) (over p),
    length-append (map (asked args) p.to_start) (map (asked args) p.asking ++ p.selecting),
    length-append (map (asked args) p.asking) p.selecting,
  )

  pub selected-open :
      {p : FanIn T} (before : List (ClientResult T)) (r : ClientResult T)
      (after : List (ClientResult T))
      → p.selecting ≡ before ++ (r ∷ after)
      → IsFannedIn args p
      → p.done < length args.addrs
  selected-open before r after e h =
      omega (arith, left_and_over h, ap length e, length-append before (r ∷ after))

  FanStep-IsFannedIn : {p q : FanIn T} → FanStep args p q → IsFannedIn args p → IsFannedIn args q
  FanStep-IsFannedIn {p} (FanStep.starts addr rest e) h = record {
    accounted = Perm.trans (Perm.append_right (over p) (perm_middle (map (asked args) rest) _)) (
        subst
          (λ l.
            Perm ((map (asked args) l ++ (map (asked args) p.asking ++ p.selecting)) ++ over p)
              (map (asked args) args.addrs))
          e h.accounted);
    counted = h.counted;
    behind = h.behind;
    in_time = h.in_time;
  }
  FanStep-IsFannedIn {p} (FanStep.asks before addr after e back) h = record {
    accounted =
        Perm.trans
          (rw (map-append (asked args) before after) (
            ask-perm (map (asked args) p.to_start) (map (asked args) before)
              (map (asked args) after) p.selecting (over p) (asked args addr)))
          (subst
            (λ l.
              Perm ((map (asked args) p.to_start ++ (l ++ p.selecting)) ++ over p)
                (map (asked args) args.addrs))
            (ap (map (asked args)) e ∙ map-append (asked args) before (addr ∷ after)) h.accounted);
    counted = h.counted;
    behind = h.behind;
    in_time = h.in_time;
  }
  FanStep-IsFannedIn {p} (FanStep.sends before r after e room) h = record {
    accounted = Perm.trans (take_buffered _ p.received p.buffer p.dropped r) (
        Perm.trans
          (Perm.symm (
            take_selected (map (asked args) p.to_start) (map (asked args) p.asking) before after
              (over p) r))
          (subst
            (λ l.
              Perm ((map (asked args) p.to_start ++ (map (asked args) p.asking ++ l)) ++ over p)
                (map (asked args) args.addrs))
            e h.accounted));
    counted = omega (
      arith,
      h.counted,
      length-parts p.received p.buffer p.dropped,
      length-parts p.received (p.buffer ++ (r ∷ [])) p.dropped,
      length-append p.buffer (r ∷ []),
    );
    behind = λ c. absurd (omega (arith, h.behind c, selected-open before r after e h));
    in_time = h.in_time;
  }
  FanStep-IsFannedIn {p} (FanStep.drops before r after e late) h = record {
    accounted = Perm.trans (take_dropped _ p.received p.buffer p.dropped r) (
        Perm.trans
          (Perm.symm (
            take_selected (map (asked args) p.to_start) (map (asked args) p.asking) before after
              (over p) r))
          (subst
            (λ l.
              Perm ((map (asked args) p.to_start ++ (map (asked args) p.asking ++ l)) ++ over p)
                (map (asked args) args.addrs))
            e h.accounted));
    counted = omega (
      arith,
      h.counted,
      length-parts p.received p.buffer p.dropped,
      length-parts p.received p.buffer (r ∷ p.dropped),
    );
    behind = λ c. absurd (omega (arith, h.behind c, selected-open before r after e h));
    in_time = λ early. cc;
  }
  FanStep-IsFannedIn (FanStep.expires e) h = record {
    accounted = h.accounted;
    counted = h.counted;
    behind = h.behind;
    in_time = λ early. cc;
  }
  FanStep-IsFannedIn (FanStep.closes e all_done open_yet) h = record {
    accounted = h.accounted;
    counted = h.counted;
    behind = λ c. all_done;
    in_time = λ early. cc;
  }
  FanStep-IsFannedIn {p} (FanStep.receives r rest e) h = record {
    accounted =
        subst (λ l. Perm (to_come args p ++ l) (map (asked args) args.addrs))
          (ap (λ b. p.received ++ (b ++ p.dropped)) e
            ∙ sym (append_assoc p.received (r ∷ []) (rest ++ p.dropped)))
          h.accounted;
    counted = omega (
      arith,
      h.counted,
      ap length e,
      length-parts p.received p.buffer p.dropped,
      length-parts (p.received ++ (r ∷ [])) rest p.dropped,
      length-append p.received (r ∷ []),
    );
    behind = h.behind;
    in_time = h.in_time;
  }

  start-IsFannedIn : IsFannedIn args (fan_in_requests args)
  unfolding fan_in_requests
  start-IsFannedIn = record {
    accounted =
        subst (λ l. Perm l (map (asked args) args.addrs))
          (sym (
            append-nil (map (asked args) args.addrs ++ [])
            ∙ append-nil (map (asked args) args.addrs)))
          (Perm.refl (map (asked args) args.addrs));
    counted = refl;
    behind = λ c. cc;
    in_time = λ early. refl;
  }

  -- At any moment of a composite call, each request that was to be made is still to come, under way,
  -- dropped, in the channel or received, once; no goroutine is left that could send once the channel
  -- is closed; and nothing is dropped before the deadline.
  pub FanRun-IsFannedIn : {p : FanIn T} → FanRun args p → IsFannedIn args p
  FanRun-IsFannedIn FanRun.begins = start-IsFannedIn
  FanRun-IsFannedIn (FanRun.goes_on r step) = FanStep-IsFannedIn step (FanRun-IsFannedIn r)

  nothing_left : (p : FanIn T) → left_over p ≡ 0 → to_come args p ≡ []
  nothing_left p e =
      rw
        (
          length-zero p.to_start (omega (arith, e)),
          length-zero p.asking (omega (arith, e)),
          length-zero p.selecting (omega (arith, e)),
        )
        refl

  -- When the channel is closed and empty, the receiver has the results of all requests but those that
  -- were dropped; of all, where none was dropped.
  pub FanRun-complete :
      {p : FanIn T}
      → FanRun args p
      → p.closed ≡ true
      → p.buffer ≡ []
      → Perm (p.received ++ p.dropped) (map (asked args) args.addrs)
  FanRun-complete {p} r closed empty =
      let h = FanRun-IsFannedIn r in
      let none_left : left_over p ≡ 0 = omega (arith, left_and_over h, h.behind closed) in
      subst (λ l. Perm (l ++ (p.received ++ p.dropped)) (map (asked args) args.addrs))
        (nothing_left p none_left)
        (subst
          (λ b.
            Perm (to_come args p ++ (p.received ++ (b ++ p.dropped))) (map (asked args) args.addrs))
          empty h.accounted)
