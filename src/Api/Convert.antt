-- ===== src/Api/Convert.antt =====
-- service/api/ioconv.go: the types of the requests and responses, and their conversions. The struct
-- tags, which name the fields in JSON, have no counterpart.
use Prim.Native.String.{String}
use ddrop.Base.{ℕ, Bool, Option, List, [], ◌∷◌, map}
use ddrop.Base.Int.{ℤ}
use ddrop.Timex
use ddrop.Knnc.SearchSpaces
use ddrop.Requestman.Handle.{NewHandleArgs}
use ddrop.Requestman.Query.{KnnMethod, KnnArgs}
use ddrop.Ops.Answers
use ddrop.Ops.Server

pub record NewSearchSpacesArgs : Type 0 where
  pub search_spaces_max_cap : ℤ
  pub search_spaces_max_n : ℤ
  pub maintenance_task_interval : ℤ

abbrev pub export_spaces : NewSearchSpacesArgs → SearchSpaces.NewSearchSpacesArgs
export_spaces args = record {
  max_cap = args.search_spaces_max_cap;
  max_n = args.search_spaces_max_n;
  maintenance_interval = args.maintenance_task_interval;
}

pub record NewLatencyTrackerArgs : Type 0 where
  pub max_chain_link_n : ℤ
  pub min_chain_link_size : ℤ
  pub standard_period : ℤ

abbrev pub export_tracker : NewLatencyTrackerArgs → Timex.NewLatencyTrackerArgs
export_tracker args = record {
  max_chain_link_n = args.max_chain_link_n;
  min_chain_link_size = args.min_chain_link_size;
  standard_period = args.standard_period;
}

pub record NewRequestManagerHandleArgs : Type 0 where
  pub new_search_spaces_args : NewSearchSpacesArgs
  pub new_latency_tracker_args : NewLatencyTrackerArgs
  pub knn_queue_buf : ℤ
  pub knn_queue_max_concurrent : ℤ
  pub new_knn_monitor_args : NewLatencyTrackerArgs

-- With the context of the handle, which may be nil.
abbrev pub export_handle : NewRequestManagerHandleArgs → Bool → NewHandleArgs
export_handle args ctx_made = record {
  new_search_space_args = export_spaces args.new_search_spaces_args;
  new_latency_tracker_args = export_tracker args.new_latency_tracker_args;
  knn_queue_buf = args.knn_queue_buf;
  knn_queue_max_concurrent = args.knn_queue_max_concurrent;
  ctx_made = ctx_made;
  new_knn_monitor_args = export_tracker args.new_knn_monitor_args;
}

pub record RpcServerStartArgs : Type 0 where
  pub addr : String
  pub cfg : NewRequestManagerHandleArgs

pub record ClientResult {ℓ} (T : Type ℓ) : Type ℓ where
  pub remote_addr : String
  pub net_failed : Bool
  pub payload : T
  pub network_latency : ℤ

module _ {ℓ κ} {T : Type ℓ} {U : Type κ} where
  abbrev pub new_client_result : Answers.ClientResult T → (T → U) → ClientResult U
  new_client_result r conv = record {
    remote_addr = r.remote_addr;
    net_failed = r.net_failed;
    payload = conv r.payload;
    network_latency = r.network_latency;
  }

  -- Of what is received from the channel until it is closed.
  unfoldable pub new_client_results :
      List (Answers.ClientResult T) → (T → U) → List (ClientResult U)
  new_client_results [] conv = []
  new_client_results (item ∷ items) conv =
      new_client_result item conv ∷ new_client_results items conv

pub record AddDataArgs {ℓ} (F : Type ℓ) : Type ℓ where
  pub namespace : String
  pub vec : List F
  pub content : List ℕ
  pub expires : Option ℕ

abbrev pub export_add_data {ℓ} : {F : Type ℓ} → AddDataArgs F → Server.AddDataArgs F
export_add_data args = record {
  namespace = args.namespace;
  vec = args.vec;
  content = args.content;
  expires = args.expires;
}

pub record KnnArgsPartial {ℓ} (F : Type ℓ) : Type ℓ where
  pub namespace : String
  pub priority : ℤ
  pub knn_method : KnnMethod
  pub ascending : Bool
  pub k : ℤ
  pub extent : F
  pub accept : F
  pub reject : F
  pub ttl : ℤ
  pub monitor : Bool

pub record KnnArgsMany {ℓ} (F : Type ℓ) : Type ℓ where
  pub query_vecs : List (List F)
  pub args : KnnArgsPartial F

-- The arguments for one query vector.
abbrev pub with_vec {ℓ} : {F : Type ℓ} → KnnArgsPartial F → List F → KnnArgs F
with_vec args vec = record {
  namespace = args.namespace;
  priority = args.priority;
  query_vec = vec;
  knn_method = args.knn_method;
  ascending = args.ascending;
  k = args.k;
  extent = args.extent;
  accept = args.accept;
  reject = args.reject;
  ttl = args.ttl;
  monitor = args.monitor;
}

abbrev pub export_knn {ℓ} : {F : Type ℓ} → KnnArgsMany F → List (KnnArgs F)
export_knn args = map (with_vec args.args) args.query_vecs

pub record KnnRespItem {ℓ} (F : Type ℓ) : Type ℓ where
  pub vec : List F
  pub score : F

-- The response for one query vector.
pub record KnnResp {ℓ} (F : Type ℓ) : Type ℓ where
  pub query_vec : List F
  pub query_vec_index : ℕ
  pub results : List (ClientResult (KnnRespItem F))

pub record SSpaceDimResp : Type 0 where
  pub lookup_ok : Bool
  pub dim : ℕ

pub record SSpaceLenResp : Type 0 where
  pub lookup_ok : Bool
  pub n_s_spaces : ℕ
  pub n_vecs : ℕ

pub record SSpaceCapResp : Type 0 where
  pub lookup_ok : Bool
  pub cap : ℕ

pub record KnnLatencyArgs : Type 0 where
  pub key : String
  pub period : ℤ

pub record KnnLatencyResp : Type 0 where
  pub lookup_ok : Bool
  pub queue : ℤ
  pub query : ℤ
  pub bounds_ok : Bool

pub record KnnMonArgs : Type 0 where
  pub start : ℕ
  pub end : ℕ

-- The exported fields of requestman.KNNMonItemAvg.
pub record KnnMonItemAvgOut {ℓ} (F : Type ℓ) : Type ℓ where
  pub created : ℕ
  pub span : ℤ
  pub n : ℤ
  pub n_failed : ℤ
  pub avg_latency : ℤ
  pub avg_score : F
  pub avg_score_no_fails : F
  pub avg_satisfaction : F
