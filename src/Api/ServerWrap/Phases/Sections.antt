-- ===== src/Api/ServerWrap/Phases/Sections.antt =====
-- Each section of a request keeps the wrap and the requests sound.
use mathlib.Core.List.Perm
use ddrop.Base.{
  ◌≡◌, refl, sym, ap, ◌∙◌, subst, inl, inr, true, Option, none, some, List, [], ◌∷◌, ◌++◌, Perm,
  All, All-append, All-split, take_out, both_nil, single, not_nil, only, nothing,
}
use ddrop.Api.ServerWrap.{RpcServerState, can_start, Place, System, Section}
use ddrop.Api.ServerWrap.Phases.{
  under_way, holds, Unpanicked, gather, gather-append, owned, InPhase, IsSound, take_last,
}

module _ {ℓ} {S : Type ℓ} where
  -- What a section under way tells of the state and the stop function.
  abbrev AtPlace : Place S → RpcServerState → Option S → Type ℓ
  AtPlace Place.stop_inner st o = (st ≡ RpcServerState.stopping) × ((s : S) × (o ≡ some s))
  AtPlace Place.stop_last st o = (st ≡ RpcServerState.stopping) × (o ≡ none)
  AtPlace (Place.start_inner s) st o = (st ≡ RpcServerState.starting) × (o ≡ none)
  AtPlace Place.start_last st o = (st ≡ RpcServerState.starting) × ((s : S) × (o ≡ some s))
  AtPlace _ st o = Unit

  module _ (xs ys : List (Place S)) (p : Place S) (o : Option S) where
    placed :
        (st : RpcServerState) (q : Place S)
        → xs ++ (p ∷ ys) ≡ q ∷ []
        → AtPlace q st o
        → (xs ≡ []) × (ys ≡ []) × AtPlace p st o
    placed st q e at =
        let (a, b, same) = single xs ys p q e in (a, b, subst (λ r. AtPlace r st o) (sym same) at)

    -- A section under way is the only one.
    alone :
        (st : RpcServerState)
        → InPhase st (xs ++ (p ∷ ys)) o
        → (xs ≡ []) × (ys ≡ []) × AtPlace p st o
    alone RpcServerState.default (e, e') = absurd (not_nil xs ys p e)
    alone RpcServerState.starting (inl (s, e, e')) = placed RpcServerState.starting _ e (refl, e')
    alone RpcServerState.starting (inr (s, e, e')) =
        placed RpcServerState.starting _ e (refl, (s, e'))
    alone RpcServerState.started (s, e, e') = absurd (not_nil xs ys p e)
    alone RpcServerState.stopping (inl (s, e, e')) =
        placed RpcServerState.stopping _ e (refl, (s, e'))
    alone RpcServerState.stopping (inr (e, e')) = placed RpcServerState.stopping _ e (refl, e')
    alone RpcServerState.stopped (e, e') = absurd (not_nil xs ys p e)

  -- A wrap that can start is free.
  free :
      (st : RpcServerState) (m : List (Place S)) (o : Option S)
      → can_start st ≡ true
      → InPhase st m o
      → (m ≡ []) × (o ≡ none)
  free RpcServerState.default m o e h = h
  free RpcServerState.starting m o e h = cc
  free RpcServerState.started m o e h = cc
  free RpcServerState.stopping m o e h = cc
  free RpcServerState.stopped m o e h = h

  module _ (before after : List (Place S)) where
    abbrev around : List (Place S) → List (Place S)
    around m = gather under_way before ++ (m ++ gather under_way after)

    abbrev in_hands : List S → List S
    in_hands l = gather holds before ++ (l ++ gather holds after)

    -- The facts of IsSound with the place of one request open.
    record Opened (w : System S) (p : Place S) : Type ℓ where
      in_phase : InPhase w.state (around (under_way p)) w.server_stop_f
      together : w.server ≡ w.server_stop_f
      accounted : Perm w.listened (w.stop_calls ++ (in_hands (holds p) ++ owned w.server_stop_f))
      others : All Unpanicked before × All Unpanicked after

    open_at :
        {w : System S} (p : Place S) → w.requests ≡ before ++ (p ∷ after) → IsSound w → Opened w p
    open_at {w} p e h = record {
      in_phase =
          subst (λ m. InPhase w.state m w.server_stop_f)
            (ap (gather under_way) e ∙ gather-append under_way before (p ∷ after)) h.in_phase;
      together = h.together;
      accounted =
          subst (λ l. Perm w.listened (w.stop_calls ++ (l ++ owned w.server_stop_f)))
            (ap (gather holds) e ∙ gather-append holds before (p ∷ after)) h.accounted;
      others =
          let (a, b) =
            All-split Unpanicked before (p ∷ after) (subst (All Unpanicked) e h.no_panic) in
          (a, b.1);
    }

    close_at :
        {v : System S} (q : Place S)
        → Unpanicked q
        → Opened v q
        → IsSound (record v { requests = before ++ (q ∷ after) })
    close_at {v} q calm h = record {
      in_phase =
          subst (λ m. InPhase v.state m v.server_stop_f)
            (sym (gather-append under_way before (q ∷ after))) h.in_phase;
      together = h.together;
      accounted =
          subst (λ l. Perm v.listened (v.stop_calls ++ (l ++ owned v.server_stop_f)))
            (sym (gather-append holds before (q ∷ after))) h.accounted;
      no_panic = All-append Unpanicked before (q ∷ after) h.others.0 (calm, h.others.1);
    }

    calm_after : {w v : System S} {p q : Place S} → Section w p v q → Opened w p → Unpanicked q
    calm_after (Section.stop_refused st e n) h = tt
    calm_after (Section.stop_begins e) h = tt
    calm_after (Section.stop_calls_it s e) h = tt
    calm_after {w} (Section.stop_calls_nil e) h =
        let (_, _, (_, (s, e'))) = alone _ _ Place.stop_inner w.server_stop_f w.state h.in_phase in
        cc
    calm_after Section.stop_ends h = tt
    calm_after (Section.start_refused s st e e') h = tt
    calm_after (Section.start_begins s e) h = tt
    calm_after (Section.start_sets s) h = tt
    calm_after Section.start_ends h = tt

    keeps_open : {w v : System S} {p q : Place S} → Section w p v q → Opened w p → Opened v q
    keeps_open (Section.stop_refused st e n) h = record {
      in_phase = h.in_phase;
      together = h.together;
      accounted = h.accounted;
      others = h.others;
    }
    keeps_open {w} (Section.stop_begins e) h =
        let (s, none_under_way, owns) : InPhase RpcServerState.started (around []) w.server_stop_f =
          subst (λ st. InPhase st (around []) w.server_stop_f) e h.in_phase in
        let (b, a) = both_nil _ _ none_under_way in
        record {
          in_phase = inl (s, only Place.stop_inner b a, owns);
          together = h.together;
          accounted = h.accounted;
          others = h.others;
        }
    keeps_open {w} (Section.stop_calls_it s e) h =
        let (b, a, (st, _)) = alone _ _ Place.stop_inner w.server_stop_f w.state h.in_phase in
        record {
          in_phase =
              subst (λ st. InPhase st (around (Place.stop_last ∷ [])) none) (sym st)
                (inr (only Place.stop_last b a, refl));
          together = refl;
          accounted =
              Perm.trans
                (subst (λ o. Perm w.listened (w.stop_calls ++ (in_hands [] ++ owned o))) e
                  h.accounted)
                (take_last w.stop_calls (in_hands []) s);
          others = h.others;
        }
    keeps_open {w} (Section.stop_calls_nil e) h =
        let (_, _, (_, (s, e'))) = alone _ _ Place.stop_inner w.server_stop_f w.state h.in_phase in
        cc
    keeps_open {w} Section.stop_ends h =
        let (b, a, (_, owns)) = alone _ _ Place.stop_last w.server_stop_f w.state h.in_phase in
        record {
          in_phase = (nothing b a, owns);
          together = h.together;
          accounted = h.accounted;
          others = h.others;
        }
    keeps_open {w} (Section.start_refused s st e e') h = record {
      in_phase = h.in_phase;
      together = h.together;
      accounted = Perm.trans h.accounted (take_out w.stop_calls _ _ (owned w.server_stop_f) s);
      others = h.others;
    }
    keeps_open {w} (Section.start_begins s e) h =
        let (none_under_way, owns) = free w.state (around []) w.server_stop_f e h.in_phase in
        let (b, a) = both_nil _ _ none_under_way in
        record {
          in_phase = inl (s, only (Place.start_inner s) b a, owns);
          together = h.together;
          accounted = h.accounted;
          others = h.others;
        }
    keeps_open {w} (Section.start_sets s) h =
        let (b, a, (st, owns)) =
          alone _ _ (Place.start_inner s) w.server_stop_f w.state h.in_phase in
        record {
          in_phase =
              subst (λ st. InPhase st (around (Place.start_last ∷ [])) (some s)) (sym st)
                (inr (s, only Place.start_last b a, refl));
          together = refl;
          accounted =
              Perm.trans
                (subst (λ o. Perm w.listened (w.stop_calls ++ (in_hands (s ∷ []) ++ owned o))) owns
                  h.accounted)
                (Perm.trans (take_out w.stop_calls _ _ [] s)
                  (Perm.symm (take_last w.stop_calls (in_hands []) s)));
          others = h.others;
        }
    keeps_open {w} Section.start_ends h =
        let (b, a, (_, (s, owns))) =
          alone _ _ Place.start_last w.server_stop_f w.state h.in_phase in
        record {
          in_phase = (s, nothing b a, owns);
          together = h.together;
          accounted = h.accounted;
          others = h.others;
        }

    -- A section that one of the requests makes.
    pub Section-IsSound :
        {w v : System S} {p q : Place S}
        → w.requests ≡ before ++ (p ∷ after)
        → Section w p v q
        → IsSound w
        → IsSound (record v { requests = before ++ (q ∷ after) })
    Section-IsSound {p} {q} e step h =
        let opened = open_at p e h in close_at q (calm_after step opened) (keeps_open step opened)
