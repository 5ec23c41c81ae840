-- ===== src/Ops/Clients/Calls.antt =====
-- The methods of Clients and CSInfo: the composite call that each makes. `now` is the clock in the
-- goroutine of each address.
use Prim.Native.String.{String}
use ddrop.Base.{ℕ, Bool, Option, List}
use ddrop.Float.{Float}
use ddrop.Requestman.Query.{KnnArgs}
use ddrop.Requestman.Monitor.{KnnMonItemAvg}
use ddrop.Ops.Answers.{KnnResp}
use ddrop.Ops.Server.{AddDataArgs, SSpaceDimResp, SSpaceLenResp, SSpaceCapResp, KnnLatencyResp}
use ddrop.Ops.Client.{
  Remote, KnnLatencyArgs, KnnMonArgs, ping, c_s_space_namespaces, c_s_space_namespace,
  c_s_space_dim, c_s_space_len, c_s_space_cap, c_knn_latency, c_knn_monitor, client_add_data,
  client_knn_eager,
}
use ddrop.Ops.Clients.{Clients, FanInRequestsArgs, composite, random_composite}

module _ (cs : Clients) (now : String → ℕ) where
  abbrev pub clients_ping : Remote Bool Bool → FanInRequestsArgs Bool
  clients_ping remote = composite cs remote.returns λ c. ping remote c (now c.remote_addr)

  abbrev pub cs_s_space_namespaces :
      Remote Bool (Option (List String)) → FanInRequestsArgs (Option (List String))
  cs_s_space_namespaces remote =
      composite cs remote.returns λ c. c_s_space_namespaces remote c (now c.remote_addr)

  abbrev pub cs_s_space_namespace : Remote String Bool → String → FanInRequestsArgs Bool
  cs_s_space_namespace remote key =
      composite cs remote.returns λ c. c_s_space_namespace remote c key (now c.remote_addr)

  abbrev pub cs_s_space_dim : Remote String SSpaceDimResp → String → FanInRequestsArgs SSpaceDimResp
  cs_s_space_dim remote key =
      composite cs remote.returns λ c. c_s_space_dim remote c key (now c.remote_addr)

  abbrev pub cs_s_space_len : Remote String SSpaceLenResp → String → FanInRequestsArgs SSpaceLenResp
  cs_s_space_len remote key =
      composite cs remote.returns λ c. c_s_space_len remote c key (now c.remote_addr)

  abbrev pub cs_s_space_cap : Remote String SSpaceCapResp → String → FanInRequestsArgs SSpaceCapResp
  cs_s_space_cap remote key =
      composite cs remote.returns λ c. c_s_space_cap remote c key (now c.remote_addr)

  abbrev pub cs_knn_latency :
      Remote KnnLatencyArgs KnnLatencyResp → KnnLatencyArgs → FanInRequestsArgs KnnLatencyResp
  cs_knn_latency remote args =
      composite cs remote.returns λ c. c_knn_latency remote c args (now c.remote_addr)

  module _ {ℓ} {F : Type ℓ} ⦃f : Float F⦄ where
    abbrev pub cs_knn_monitor :
        Remote KnnMonArgs (KnnMonItemAvg F) → KnnMonArgs → FanInRequestsArgs (KnnMonItemAvg F)
    cs_knn_monitor remote args =
        composite cs remote.returns λ c. c_knn_monitor remote c args (now c.remote_addr)

    -- `r_index` is the random index.
    abbrev pub clients_add_data :
        Remote (Option (List (AddDataArgs F))) (Option (List Bool))
        → ℕ
        → Option (List (AddDataArgs F))
        → Option (FanInRequestsArgs (Option (List Bool)))
    clients_add_data remote r_index args =
        random_composite cs r_index remote.returns
          λ c. client_add_data remote c args (now c.remote_addr)

    abbrev pub clients_knn_eager :
        Remote (KnnArgs F) (KnnResp F) → KnnArgs F → FanInRequestsArgs (KnnResp F)
    clients_knn_eager remote args =
        composite cs remote.returns λ c. client_knn_eager remote c args (now c.remote_addr)
