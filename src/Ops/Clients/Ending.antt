-- ===== src/Ops/Clients/Ending.antt =====
-- How fanInRequests ends: its steps are bounded, and it may hang on calls that never return.
use Prim.Native.String.{String}
use mathlib.Core.List.{append_assoc, append-nil}
use ddrop.Base.{
  ℕ, suc, ◌+◌, ◌*◌, ◌≤◌, ◌<◌, ◌≡◌, refl, ap, ◌⊎◌, inl, inr, Bool, true, Bool-cases, List, [], ◌∷◌,
  length, length-append, arith, ◌++◌, sym, ◌∙◌, subst, All, All-append, false,
}
use ddrop.Ops.Answers.{ClientResult}
use ddrop.Ops.Clients.{FanInRequestsArgs, FanIn, fan_in_requests, FanStep, FanRun}
use ddrop.Ops.Clients.Places.{length-parts}
use ddrop.Ops.Clients.Collected.{IsFannedIn, left_and_over, selected-open, FanRun-IsFannedIn}

module _ {ℓ} {T : Type ℓ} (args : FanInRequestsArgs T) where
  abbrev pending_close : Bool → ℕ
  pending_close true = 0
  pending_close false = 1

  abbrev pub fan_moves_left : FanIn T → ℕ
  fan_moves_left p =
      4 * length p.to_start
      + 3 * length p.asking
      + 2 * length p.selecting
      + length p.buffer
      + pending_close p.closed
      + pending_close p.ctx_done

  FanStep-moves : {p q : FanIn T} → FanStep args p q → fan_moves_left q < fan_moves_left p
  FanStep-moves (FanStep.starts addr rest e) = omega (arith, ap length e)
  FanStep-moves (FanStep.asks before addr after e back) =
      omega (arith, ap length e, length-append before (addr ∷ after), length-append before after)
  FanStep-moves {p} (FanStep.sends before r after e room) = omega (
    arith,
    ap length e,
    length-append before (r ∷ after),
    length-append before after,
    length-append p.buffer (r ∷ []),
  )
  FanStep-moves (FanStep.drops before r after e late) =
      omega (arith, ap length e, length-append before (r ∷ after), length-append before after)
  FanStep-moves (FanStep.expires e) = omega (arith, ap pending_close e)
  FanStep-moves {p} (FanStep.closes e all_done open_yet) = elim (Bool-cases p.ctx_done) [
    | inl e' ↦ omega (arith, ap pending_close e', ap pending_close open_yet)
    | inr e' ↦ omega (arith, ap pending_close e', ap pending_close open_yet)
  ]
  FanStep-moves (FanStep.receives r rest e) = omega (arith, ap length e)

  abbrev pub fan_steps : {p : FanIn T} → FanRun args p → ℕ
  fan_steps FanRun.begins = 0
  fan_steps (FanRun.goes_on r step) = suc (fan_steps r)

  FanRun-moves :
      {p : FanIn T} (r : FanRun args p) → fan_steps r + fan_moves_left p ≤ 4 * length args.addrs + 2
  unfolding fan_in_requests
  FanRun-moves FanRun.begins = omega arith
  FanRun-moves (FanRun.goes_on r step) = omega (arith, FanRun-moves r, FanStep-moves step)

  -- Calls that never return are all that is left: the channel is never closed.
  abbrev pub Hangs : FanIn T → Type ℓ
  Hangs p =
      (p.to_start ≡ [])
      × (p.selecting ≡ [])
      × (0 < length p.asking)
      × All (λ addr. args.returns addr ≡ false) p.asking
      × (p.closed ≡ false)

  -- A step of the goroutines or of the receiver is left, or the channel is closed and empty, or the
  -- call hangs.
  abbrev pub FanGoesOn : FanIn T → Type ℓ
  FanGoesOn p =
      ((q : FanIn T) × FanStep args p q) ⊎ (((p.closed ≡ true) × (p.buffer ≡ [])) ⊎ Hangs p)

  module _ (p : FanIn T) (h : IsFannedIn args p) where
    closed-FanGoesOn : (b : List (ClientResult T)) → p.buffer ≡ b → p.closed ≡ true → FanGoesOn p
    closed-FanGoesOn [] e c = inr (inl (c, e))
    closed-FanGoesOn (r ∷ rest) e c = inl (_, FanStep.receives r rest e)

    over-FanGoesOn : p.to_start ≡ [] → p.done ≡ length args.addrs → FanGoesOn p
    over-FanGoesOn e all_done = elim (Bool-cases p.closed) [
      | inl c ↦ closed-FanGoesOn p.buffer refl c
      | inr c ↦ inl (_, FanStep.closes e all_done c)
    ]

    buffer-room : p.done < length args.addrs → length p.buffer < length args.addrs
    buffer-room open_yet = omega (arith, h.counted, length-parts p.received p.buffer p.dropped)

    open_yet : 0 < length p.asking → p.closed ≡ false
    open_yet some_left = elim (Bool-cases p.closed) [
      | inr c ↦ c
      | inl c ↦ absurd (omega (arith, left_and_over args h, h.behind c, some_left))
    ]

    -- The first call under way that returns, behind `before`, where one does.
    asking-FanGoesOn :
        (before rest : List String)
        → p.asking ≡ before ++ rest
        → All (λ addr. args.returns addr ≡ false) before
        → p.to_start ≡ []
        → p.selecting ≡ []
        → FanGoesOn p
    asking-FanGoesOn [] [] e hang e' e'' =
        over-FanGoesOn e'
          (omega (arith, left_and_over args h, ap length e, ap length e', ap length e''))
    asking-FanGoesOn (addr ∷ before) [] e hang e' e'' =
        let same : p.asking ≡ addr ∷ before = e ∙ append-nil (addr ∷ before) in
        let left : 0 < length p.asking = omega (arith, ap length same) in
        inr (
          inr (
            e',
            e'',
            left,
            subst (All (λ a. args.returns a ≡ false)) (sym same) hang,
            open_yet left,
          ))
    asking-FanGoesOn before (addr ∷ rest) e hang e' e'' = elim (Bool-cases (args.returns addr)) [
      | inl back ↦ inl (_, FanStep.asks before addr rest e back)
      | inr gone ↦
          asking-FanGoesOn (before ++ (addr ∷ [])) rest
            (e ∙ sym (append_assoc before (addr ∷ []) rest))
            (All-append (λ a. args.returns a ≡ false) before (addr ∷ []) hang (gone, tt)) e' e''
    ]

    selecting-FanGoesOn :
        (l : List (ClientResult T)) → p.selecting ≡ l → p.to_start ≡ [] → FanGoesOn p
    selecting-FanGoesOn [] e e' = asking-FanGoesOn [] p.asking refl tt e' e
    selecting-FanGoesOn (r ∷ rest) e e' =
        inl (_, FanStep.sends [] r rest e (buffer-room (selected-open args [] r rest e h)))

    to_start-FanGoesOn : (l : List String) → p.to_start ≡ l → FanGoesOn p
    to_start-FanGoesOn [] e = selecting-FanGoesOn p.selecting refl e
    to_start-FanGoesOn (addr ∷ rest) e = inl (_, FanStep.starts addr rest e)

  -- A composite call makes at most four steps for each address and two more, whatever its deadline,
  -- and at any moment a step is left, or the channel is closed and empty, or the call hangs: then the
  -- channel is open, and of its goroutines just those are left whose calls never return, of which
  -- there is one at least. The deadline does not end these.
  pub FanRun-ends :
      {p : FanIn T} (r : FanRun args p) → (fan_steps r ≤ 4 * length args.addrs + 2) × FanGoesOn p
  FanRun-ends {p} r = (
    omega (arith, FanRun-moves r),
    to_start-FanGoesOn p (FanRun-IsFannedIn args r) p.to_start refl,
  )
