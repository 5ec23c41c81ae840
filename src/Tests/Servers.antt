-- ===== src/Tests/Servers.antt =====
-- A run of the wrap of the RPC server: a request to start it and, in its midst, one to stop it.
use ddrop.Base.{ℕ, refl, none, some, [], ◌∷◌}
use ddrop.Api.ServerWrap.{
  RpcServerState, status_conflict, to_status, Place, System, Section, Step, Reach,
}
use ddrop.Api.ServerWrap.Phases.{IsSound}
use ddrop.Api.ServerWrap.Phases.Safety.{Settled, Reach-IsSound, Reach-Settled}

-- Server 7 listens, the wrap is starting, and a request to stop has been refused.
abbrev refused : Place ℕ
refused = Place.answered (some status_conflict) (to_status RpcServerState.starting)

abbrev midst : System ℕ
midst = record {
  state = RpcServerState.starting;
  server = none;
  server_stop_f = none;
  requests = refused ∷ (Place.start_inner 7 ∷ []);
  listened = 7 ∷ [];
  stop_calls = [];
}

to_midst : Reach midst
to_midst =
    Reach.goes_on
      (Reach.goes_on
        (Reach.goes_on (Reach.goes_on Reach.begins (Step.start_arrives 7))
          (Step.moves [] (Place.start_first 7) [] refl (Section.start_begins 7 refl)))
        Step.stop_arrives)
      (Step.moves [] Place.stop_first (Place.start_inner 7 ∷ []) refl
        (Section.stop_refused RpcServerState.starting refl (λ h. cc)))

Reach-IsSound_example : IsSound midst
Reach-IsSound_example = Reach-IsSound to_midst

abbrev running : System ℕ
running = record {
  state = RpcServerState.started;
  server = some 7;
  server_stop_f = some 7;
  requests = refused ∷ (Place.answered none (to_status RpcServerState.started) ∷ []);
  listened = 7 ∷ [];
  stop_calls = [];
}

to_running : Reach running
to_running =
    Reach.goes_on
      (Reach.goes_on to_midst
        (Step.moves (refused ∷ []) (Place.start_inner 7) [] refl (Section.start_sets 7)))
      (Step.moves (refused ∷ []) Place.start_last [] refl Section.start_ends)

Reach-Settled_example : Settled running
Reach-Settled_example = Reach-Settled to_running (tt, (tt, tt))
