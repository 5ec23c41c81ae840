-- ===== src/Api/Routes.antt =====
-- service/api/routes.go: what the endpoints do with their input, as the receivers that withNetIO runs,
-- on the set of addresses. What is received of a composite call is a parameter. The handlers that
-- start and stop the RPC server are in Starting and in ServerWrap.
pub mod Starting
pub mod Knn
use Prim.Native.String.{String}
use ddrop.Base.{ℕ, Bool, true, false, Option, none, some, List, [], ◌∷◌, map, length, replicate}
use ddrop.Base.Int.{ℤ, pos}
use ddrop.Float.{Float}
use ddrop.Requestman.Monitor.{KnnMonItemAvg}
use ddrop.Ops.Answers
use ddrop.Ops.Server
use ddrop.Ops.Client
use ddrop.Ops.Client.{Remote}
use ddrop.Ops.Clients.{Clients, new_clients, FanInRequestsArgs, random_composite}
use ddrop.Ops.Clients.Calls.{
  clients_ping, cs_s_space_namespaces, cs_s_space_namespace, cs_s_space_dim, cs_s_space_len,
  cs_s_space_cap, cs_knn_latency, cs_knn_monitor, clients_add_data,
}
use ddrop.Api.AddrSet.{AddrSet, addrs_maintaned_locked}
use ddrop.Api.Convert.{
  ClientResult, new_client_results, AddDataArgs, export_add_data, SSpaceDimResp, SSpaceLenResp,
  SSpaceCapResp, KnnLatencyArgs, KnnLatencyResp, KnnMonArgs, KnnMonItemAvgOut,
}
use ddrop.Api.NetIo.{Received}

-- The two readings of the clock that maintain makes, and the answers to its pings.
pub record Visit : Type 0 where
  pub time : ℕ
  pub later : ℕ
  pub answers : List (Answers.ClientResult Bool)

abbrev pub visit : AddrSet → Visit → List String → AddrSet × List String
visit s v new_addrs = addrs_maintaned_locked s v.time v.later v.answers new_addrs

module _ {ℓ} {B : Type ℓ} where
  abbrev ping_route : Unit {0} → AddrSet → Received B Bool AddrSet
  ping_route input s = some (true, [], s)

  abbrev rpc_addrs_put : Visit → List String → AddrSet → Received B (List String) AddrSet
  rpc_addrs_put v addrs s = let (s', known) = visit s v addrs in some (known, [], s')

  abbrev rpc_addrs_get : Visit → Unit {0} → AddrSet → Received B (List String) AddrSet
  rpc_addrs_get v input s = let (s', known) = visit s v [] in some (known, [], s')

  -- A composite call to all known addresses, and its results with their payloads converted.
  unfoldable relay {κ λ'} :
      {T : Type κ} {U : Type λ'}
      → (FanInRequestsArgs T → List (Answers.ClientResult T))
      → (Clients → FanInRequestsArgs T)
      → (T → U)
      → Visit
      → AddrSet
      → Received B (List (ClientResult U)) AddrSet
  unfolding addrs_maintaned_locked new_client_results
  relay receives call conv v s =
      let (s', known) = visit s v [] in
      let results = receives (call (new_clients known [])) in
      some (new_client_results results conv, [], s')

  module _ (now : String → ℕ) (v : Visit) where
    abbrev rpc_ping :
        Remote Bool Bool
        → (FanInRequestsArgs Bool → List (Answers.ClientResult Bool))
        → Unit {0}
        → AddrSet
        → Received B (List (ClientResult Bool)) AddrSet
    rpc_ping remote receives opts s =
        relay receives (λ cs. clients_ping cs now remote) (λ payload. payload) v s

    abbrev rpc_s_space_namespaces :
        Remote Bool (Option (List String))
        → (FanInRequestsArgs (Option (List String))
            → List (Answers.ClientResult (Option (List String))))
        → Unit {0}
        → AddrSet
        → Received B (List (ClientResult (Option (List String)))) AddrSet
    rpc_s_space_namespaces remote receives opts s =
        relay receives (λ cs. cs_s_space_namespaces cs now remote) (λ payload. payload) v s

    abbrev rpc_s_space_namespace :
        Remote String Bool
        → (FanInRequestsArgs Bool → List (Answers.ClientResult Bool))
        → String
        → AddrSet
        → Received B (List (ClientResult Bool)) AddrSet
    rpc_s_space_namespace remote receives key s =
        relay receives (λ cs. cs_s_space_namespace cs now remote key) (λ payload. payload) v s

    abbrev rpc_s_space_dim :
        Remote String Server.SSpaceDimResp
        → (FanInRequestsArgs Server.SSpaceDimResp
            → List (Answers.ClientResult Server.SSpaceDimResp))
        → String
        → AddrSet
        → Received B (List (ClientResult SSpaceDimResp)) AddrSet
    rpc_s_space_dim remote receives key s =
        relay receives (λ cs. cs_s_space_dim cs now remote key)
          (λ payload. record { lookup_ok = payload.lookup_ok; dim = payload.dim }) v s

    abbrev rpc_s_space_len :
        Remote String Server.SSpaceLenResp
        → (FanInRequestsArgs Server.SSpaceLenResp
            → List (Answers.ClientResult Server.SSpaceLenResp))
        → String
        → AddrSet
        → Received B (List (ClientResult SSpaceLenResp)) AddrSet
    rpc_s_space_len remote receives key s =
        relay receives (λ cs. cs_s_space_len cs now remote key)
          (λ payload. record {
            lookup_ok = payload.lookup_ok;
            n_s_spaces = payload.n_s_spaces;
            n_vecs = payload.n_vecs;
          })
          v s

    abbrev rpc_s_space_cap :
        Remote String Server.SSpaceCapResp
        → (FanInRequestsArgs Server.SSpaceCapResp
            → List (Answers.ClientResult Server.SSpaceCapResp))
        → String
        → AddrSet
        → Received B (List (ClientResult SSpaceCapResp)) AddrSet
    rpc_s_space_cap remote receives key s =
        relay receives (λ cs. cs_s_space_cap cs now remote key)
          (λ payload. record { lookup_ok = payload.lookup_ok; cap = payload.cap }) v s

    abbrev rpc_knn_latency :
        Remote Client.KnnLatencyArgs Server.KnnLatencyResp
        → (FanInRequestsArgs Server.KnnLatencyResp
            → List (Answers.ClientResult Server.KnnLatencyResp))
        → KnnLatencyArgs
        → AddrSet
        → Received B (List (ClientResult KnnLatencyResp)) AddrSet
    rpc_knn_latency remote receives opts s =
        let conv : Client.KnnLatencyArgs = record { key = opts.key; period = opts.period } in
        relay receives (λ cs. cs_knn_latency cs now remote conv)
          (λ payload. record {
            lookup_ok = payload.lookup_ok;
            queue = payload.queue;
            query = payload.query;
            bounds_ok = payload.bounds_ok;
          })
          v s

  module _ {κ} {F : Type κ} ⦃f : Float F⦄ (now : String → ℕ) (v : Visit) where
    abbrev rpc_knn_monitor :
        Remote Client.KnnMonArgs (KnnMonItemAvg F)
        → (FanInRequestsArgs (KnnMonItemAvg F) → List (Answers.ClientResult (KnnMonItemAvg F)))
        → KnnMonArgs
        → AddrSet
        → Received B (List (ClientResult (KnnMonItemAvgOut F))) AddrSet
    rpc_knn_monitor remote receives opts s =
        let conv : Client.KnnMonArgs = record { start = opts.start; end = opts.end } in
        relay receives (λ cs. cs_knn_monitor cs now remote conv)
          (λ payload. record {
            created = payload.created;
            span = payload.span;
            n = payload.n;
            n_failed = payload.n_failed;
            avg_latency = payload.avg_latency;
            avg_score = payload.avg_score;
            avg_score_no_fails = payload.avg_score_no_fails;
            avg_satisfaction = payload.avg_satisfaction;
          })
          v s

    -- `r_index` is what rand.Intn gives for the number of addresses. A nil slice is none.
    unfoldable rpc_add_data :
        Remote (Option (List (Server.AddDataArgs F))) (Option (List Bool))
        → (FanInRequestsArgs (Option (List Bool))
            → List (Answers.ClientResult (Option (List Bool))))
        → (ℕ → ℕ)
        → List (AddDataArgs F)
        → AddrSet
        → Received B (List (ClientResult (Option (List Bool)))) AddrSet
    unfolding addrs_maintaned_locked random_composite new_client_results
    rpc_add_data remote receives r_index opts s =
        let (s', known) = visit s v [] in
        elim known [
          | [] ↦ some (
            record {
              remote_addr = "";
              net_failed = false;
              payload = some (replicate (length opts) false);
              network_latency = pos 0;
            }
                ∷ [],
            [],
            s',
          )
          | addr ∷ rest ↦
              elim (clients_add_data (new_clients (addr ∷ rest) []) now remote
                (r_index (length (addr ∷ rest))) (some (map export_add_data opts))) [
                  | none ↦ none
                  | some args ↦
                      some (new_client_results (receives args) (λ payload. payload), [], s')
                ]
        ]
