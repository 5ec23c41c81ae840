-- ===== src/Api/ServerWrap/Phases/Safety.antt =====
-- What holds of the RPC server behind the HTTP handlers, however its requests are interleaved.
use mathlib.Core.List.{perm_middle, append-nil}
use mathlib.Core.List.Perm
use ddrop.Base.{
  ◌≡◌, refl, ap, subst, ◌⊎◌, inl, inr, true, Option, none, some, List, [], ◌∷◌, ◌++◌, Perm, All,
}
use ddrop.Api.ServerWrap.{RpcServerState, can_start, Place, System, new_system, Step, Reach}
use ddrop.Api.ServerWrap.Phases.{under_way, holds, InPhase, gather, owned, IsSound}
use ddrop.Api.ServerWrap.Phases.Sections.{Section-IsSound}

module _ {ℓ} {S : Type ℓ} where
  new_system-IsSound : IsSound {S = S} new_system
  new_system-IsSound = record {
    in_phase = (refl, refl);
    together = refl;
    accounted = Perm.refl [];
    no_panic = tt;
  }

  Step-IsSound : {w v : System S} → Step w v → IsSound w → IsSound v
  Step-IsSound Step.stop_arrives h = record {
    in_phase = h.in_phase;
    together = h.together;
    accounted = h.accounted;
    no_panic = (tt, h.no_panic);
  }
  Step-IsSound {w} (Step.start_arrives s) h = record {
    in_phase = h.in_phase;
    together = h.together;
    accounted = Perm.trans (Perm.cons s h.accounted) (Perm.symm (perm_middle w.stop_calls _));
    no_panic = (tt, h.no_panic);
  }
  Step-IsSound (Step.moves before p after e section) h = Section-IsSound before after e section h

  -- Whatever requests to start and to stop the RPC server arrive and however their sections
  -- interleave: at most one of them is between its first and its last section, and then the state is
  -- starting or stopping; the wrap has a server just in the state started and around it; every server
  -- that ever listened was stopped once, or is held by the wrap or by one request; and no request
  -- panics by calling a nil stop function.
  pub Reach-IsSound : {w : System S} → Reach w → IsSound w
  Reach-IsSound Reach.begins = new_system-IsSound
  Reach-IsSound (Reach.goes_on r step) = Step-IsSound step (Reach-IsSound r)

  abbrev pub Answered : Place S → Type 0
  Answered (Place.answered code status) = Unit
  Answered _ = ⊥

  Answered-free :
      (ps : List (Place S)) → All Answered ps → (gather under_way ps ≡ []) × (gather holds ps ≡ [])
  Answered-free [] h = (refl, refl)
  Answered-free (Place.answered code status ∷ ps) (h, hs) = Answered-free ps hs
  Answered-free (Place.stop_first ∷ ps) (h, hs) = absurd h
  Answered-free (Place.stop_inner ∷ ps) (h, hs) = absurd h
  Answered-free (Place.stop_last ∷ ps) (h, hs) = absurd h
  Answered-free (Place.start_first s ∷ ps) (h, hs) = absurd h
  Answered-free (Place.start_inner s ∷ ps) (h, hs) = absurd h
  Answered-free (Place.start_last ∷ ps) (h, hs) = absurd h
  Answered-free (Place.panicked ∷ ps) (h, hs) = absurd h

  -- Either no server is left, or the one that the wrap holds.
  abbrev pub Settled : System S → Type ℓ
  Settled w =
      ((can_start w.state ≡ true) × (w.server_stop_f ≡ none) × Perm w.listened w.stop_calls)
      ⊎ ((s : S) × (w.state ≡ RpcServerState.started)
          × (w.server_stop_f ≡ some s)
          × Perm w.listened (s ∷ w.stop_calls))

  module _ (w : System S) (idle : gather under_way w.requests ≡ [])
      (handed : gather holds w.requests ≡ []) where
    kept :
        (o : Option S) → w.server_stop_f ≡ o → IsSound w → Perm w.listened (w.stop_calls ++ owned o)
    kept o e h =
        let p =
          subst (λ l. Perm w.listened (w.stop_calls ++ (l ++ owned w.server_stop_f))) handed
            h.accounted in
        subst (λ o. Perm w.listened (w.stop_calls ++ owned o)) e p

    Settled-at :
        (st : RpcServerState) → w.state ≡ st → InPhase st [] w.server_stop_f → IsSound w → Settled w
    Settled-at RpcServerState.default e (_, owns) h =
        inl (
          ap can_start e,
          owns,
          subst (Perm w.listened) (append-nil w.stop_calls) (kept none owns h),
        )
    Settled-at RpcServerState.starting e (inl (s, m, _)) h = cc
    Settled-at RpcServerState.starting e (inr (s, m, _)) h = cc
    Settled-at RpcServerState.started e (s, _, owns) h = inr (
      s,
      e,
      owns,
      Perm.trans (kept (some s) owns h) (
          subst (λ l. Perm (w.stop_calls ++ (s ∷ [])) (s ∷ l)) (append-nil w.stop_calls)
            (perm_middle w.stop_calls [])),
    )
    Settled-at RpcServerState.stopping e (inl (s, m, _)) h = cc
    Settled-at RpcServerState.stopping e (inr (m, _)) h = cc
    Settled-at RpcServerState.stopped e (_, owns) h =
        inl (
          ap can_start e,
          owns,
          subst (Perm w.listened) (append-nil w.stop_calls) (kept none owns h),
        )

  -- When all requests are answered, either the wrap can start a server, holds none, and every server
  -- that ever listened was stopped once; or the wrap is started and holds a server, and all others
  -- that ever listened were stopped once.
  pub Reach-Settled : {w : System S} → Reach w → All Answered w.requests → Settled w
  Reach-Settled {w} r answered =
      let (idle, handed) = Answered-free w.requests answered in
      let h = Reach-IsSound r in
      Settled-at w idle handed w.state refl
        (subst (λ m. InPhase w.state m w.server_stop_f) idle h.in_phase) h
