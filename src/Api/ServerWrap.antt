-- ===== src/Api/ServerWrap.antt =====
-- rpcServerWrap of service/api/handle.go, and the handlers of service/api/routes.go that start and
-- stop the RPC server, each request with its own goroutine. What a request does under a lock is one
-- step: no section that holds a lock takes another one. A server stands for its stop function too.
pub mod Phases
use Prim.Native.String.{String}
use ddrop.Base.{
  ℕ, zero, suc, ◌+◌, ◌≡◌, ◌≢◌, Bool, true, false, ◌||◌, Option, none, some, List, [], ◌∷◌, ◌++◌,
}

-- rpcServerState: its constants by their names.
pub data RpcServerState : Type 0 where
  default : RpcServerState
  starting : RpcServerState
  started : RpcServerState
  stopping : RpcServerState
  stopped : RpcServerState

pub record Status : Type 0 where
  pub code : ℕ
  pub msg : String

abbrev pub to_status : RpcServerState → Status
to_status RpcServerState.default = record { code = 0; msg = "rpc server state: not set" }
to_status RpcServerState.starting = record { code = 1; msg = "rpc server state: starting" }
to_status RpcServerState.started = record { code = 2; msg = "rpc server state: started" }
to_status RpcServerState.stopping = record { code = 3; msg = "rpc server state: stopping" }
to_status RpcServerState.stopped = record { code = 4; msg = "rpc server state: stopped" }

-- The test of RPCServerStart.
abbrev pub can_start : RpcServerState → Bool
can_start RpcServerState.default = true
can_start RpcServerState.starting = false
can_start RpcServerState.started = false
can_start RpcServerState.stopping = false
can_start RpcServerState.stopped = true

-- http.StatusConflict
abbrev pub status_conflict : ℕ
status_conflict = 409

-- Where a request stands: before each of its sections under a lock, or answered, with the status code
-- that it set, or in a panic. `start_first s` has a new server s that listens.
pub data Place {ℓ} (S : Type ℓ) : Type ℓ where
  stop_first : Place S
  stop_inner : Place S
  stop_last : Place S
  start_first : S → Place S
  start_inner : S → Place S
  start_last : Place S
  answered : Option ℕ → Status → Place S
  panicked : Place S

-- The handle's wrap with the requests so far; the servers that ever listened, and those that were
-- stopped.
pub record System {ℓ} (S : Type ℓ) : Type ℓ where
  pub state : RpcServerState
  pub server : Option S
  pub server_stop_f : Option S
  pub requests : List (Place S)
  pub listened : List S
  pub stop_calls : List S

abbrev pub new_system {ℓ} : {S : Type ℓ} → System S
new_system = record {
  state = RpcServerState.default;
  server = none;
  server_stop_f = none;
  requests = [];
  listened = [];
  stop_calls = [];
}

-- One section of one request, on the wrap and the calls of stop functions.
pub data Section {ℓ} {S : Type ℓ} (w : System S) : Place S → System S → Place S → Type ℓ where
  stop_refused :
      (state : RpcServerState)
      → w.state ≡ state
      → state ≢ RpcServerState.started
      → Section w Place.stop_first w (Place.answered (some status_conflict) (to_status state))
  stop_begins :
      w.state ≡ RpcServerState.started
      → Section w Place.stop_first (record w { state = RpcServerState.stopping }) Place.stop_inner
  stop_calls_it :
      (s : S)
      → w.server_stop_f ≡ some s
      → Section w Place.stop_inner
          (record w { server = none; server_stop_f = none; stop_calls = s ∷ w.stop_calls })
          Place.stop_last
  stop_calls_nil : w.server_stop_f ≡ none → Section w Place.stop_inner w Place.panicked
  stop_ends :
      Section w Place.stop_last
        (record w { state = RpcServerState.stopped })
        (Place.answered none (to_status RpcServerState.stopped))
  start_refused :
      (s : S) (state : RpcServerState)
      → w.state ≡ state
      → can_start state ≡ false
      → Section w
          (Place.start_first s)
          (record w { stop_calls = s ∷ w.stop_calls })
          (Place.answered (some status_conflict) (to_status state))
  start_begins :
      (s : S)
      → can_start w.state ≡ true
      → Section w
          (Place.start_first s)
          (record w { state = RpcServerState.starting })
          (Place.start_inner s)
  start_sets :
      (s : S)
      → Section w
          (Place.start_inner s)
          (record w { server = some s; server_stop_f = some s })
          Place.start_last
  start_ends :
      Section w Place.start_last
        (record w { state = RpcServerState.started })
        (Place.answered none (to_status RpcServerState.started))

-- A request arrives, or one of them makes its next section. A request to start whose arguments are
-- refused or whose server does not listen is answered before its first section: it does not touch the
-- wrap.
pub data Step {ℓ} {S : Type ℓ} (w : System S) : System S → Type ℓ where
  stop_arrives : Step w (record w { requests = Place.stop_first ∷ w.requests })
  start_arrives :
      (s : S)
      → Step w (record w { requests = Place.start_first s ∷ w.requests; listened = s ∷ w.listened })
  moves :
      (before : List (Place S)) (p : Place S) (after : List (Place S)) {v : System S} {q : Place S}
      → w.requests ≡ before ++ (p ∷ after)
      → Section w p v q
      → Step w (record v { requests = before ++ (q ∷ after) })

pub data Reach {ℓ} {S : Type ℓ} : System S → Type ℓ where
  begins : Reach new_system
  goes_on : {w v : System S} → Reach w → Step w v → Reach v
