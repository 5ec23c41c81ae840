-- ===== src/Ops/Server.antt =====
-- service/ops/server.go and serverinfo.go: what the methods of the server do with the handle of the
-- request manager. `clock n k` is the k-th reading of the clock in the n-th call of the handle.
pub mod Adding
pub mod Listening
use Prim.Native.String.{String}
use ddrop.Base.{
  ℕ, suc, ◌+◌, Bool, true, false, ◌&&◌, Option, none, some, List, [], ◌∷◌, length, if◌then◌else◌,
}
use ddrop.Base.Int.{ℤ, pos, sub_ℕ, leb_ℤ, ◌+ℤ◌, minus}
use ddrop.Float.{Float}
use ddrop.Mathx.SafeVec.{SafeVec, Distancer, new_safe_vec}
use ddrop.Knnc.Items.{ScoreItem}
use ddrop.Requestman.Containers.{DistancerContainer}
use ddrop.Requestman.Handle.{
  Handle, add_data, s_space_namespaces, s_space_namespace, s_space_dim, s_space_len, s_space_cap,
}
use ddrop.Requestman.Handle.Requests.{Admission, knn, knn_queue_latency, knn_query_latency}
use ddrop.Requestman.Query.{KnnArgs}
use ddrop.Ops.Answers.{KnnResp, resp_items}

-- `content` is the field Data, which AddData of the handle does not read.
pub record AddDataArgs {ℓ} (F : Type ℓ) : Type ℓ where
  pub namespace : String
  pub vec : List F
  pub content : List ℕ
  pub expires : Option ℕ

-- The dimension of a vector, as the collections read it.
abbrev pub dim_of {ℓ} : {F : Type ℓ} → SafeVec F → ℕ
dim_of v = length v.vec

module _ {ℓ} {F : Type ℓ} ⦃f : Float F⦄ where
  abbrev pub container_of : AddDataArgs F → DistancerContainer (SafeVec F)
  container_of args = record { d = some (new_safe_vec args.vec); expires = args.expires }

  -- The loop of AddData. `done n` tells whether the context is done at the n-th call.
  pub add_data_loop :
      Handle (SafeVec F)
      → (ℕ → Bool)
      → (ℕ → ℕ → ℕ)
      → List (AddDataArgs F)
      → Handle (SafeVec F) × List Bool
  unfolding add_data
  add_data_loop h done clock [] = (h, [])
  add_data_loop h done clock (args ∷ payload) =
      let (h', ok) = add_data dim_of h (done 0) args.namespace (container_of args) (clock 0) in
      let (h'', oks) = add_data_loop h' (λ n. done (suc n)) (λ n. clock (suc n)) payload in
      (h'', ok ∷ oks)

  -- AddData with a fresh response; a nil payload leaves it nil.
  unfoldable server_add_data :
      Handle (SafeVec F)
      → (ℕ → Bool)
      → (ℕ → ℕ → ℕ)
      → Option (List (AddDataArgs F))
      → Handle (SafeVec F) × Option (List Bool)
  unfolding add_data_loop
  server_add_data h done clock none = (h, none)
  server_add_data h done clock (some payload) =
      let (h', oks) = add_data_loop h done clock payload in (h', some oks)

-- What comes first in the select of KNNEager: the timer, or the pipe. A closed pipe gives nil.
data Awaited {ℓ} (F : Type ℓ) : Type ℓ where
  timed_out : Awaited F
  piped : List (ScoreItem F (Distancer F)) → Awaited F

module _ {ℓ} {F : Type ℓ} ⦃f : Float F⦄ where
  abbrev pub no_resp : KnnResp F
  no_resp = record { knn = none; ok = false }

  -- The answer for a request that the handle took or not, and whether the request is cancelled.
  await : Admission F (DistancerContainer (SafeVec F)) → Awaited F → Option (KnnResp F × Bool)
  unfolding resp_items
  await Admission.refused awaited = some (no_resp, false)
  await Admission.panics awaited = none
  await (Admission.enqueued item monitored) timed_out = some (no_resp, true)
  await (Admission.enqueued item monitored) (piped result) =
      some (record { knn = some (resp_items result); ok = true }, false)

  -- KNNEager: the answer and whether the request is cancelled, and the handle. A panic of the handle
  -- is none.
  unfoldable knn_eager :
      Handle (SafeVec F)
      → Bool
      → KnnArgs F
      → ℕ
      → ℕ
      → (ℕ → ℕ)
      → Awaited F
      → Option (KnnResp F × Bool) × Handle (SafeVec F)
  unfolding knn await
  knn_eager h ctx_done args send_time recv_time clock awaited =
      let ttl = args.ttl +ℤ sub_ℕ send_time recv_time in
      let (admission, h') = knn h ctx_done (record args { ttl = ttl }) clock in
      if leb_ℤ ttl (pos 0) then (some (no_resp, false), h) else (await admission awaited, h')

-- The responses of the info methods.
pub record SSpaceDimResp : Type 0 where
  pub lookup_ok : Bool
  pub dim : ℕ

pub record SSpaceLenResp : Type 0 where
  pub lookup_ok : Bool
  pub n_s_spaces : ℕ
  pub n_vecs : ℕ

pub record SSpaceCapResp : Type 0 where
  pub lookup_ok : Bool
  pub cap : ℕ

module _ {ℓ} {D : Type ℓ} where
  unfoldable dim_resp : Handle D → String → SSpaceDimResp
  dim_resp h k = let (dim, ns_ok) = s_space_dim h k in record { lookup_ok = ns_ok; dim = dim }

  unfoldable len_resp : Handle D → String → SSpaceLenResp
  len_resp h k =
      let ((n_s_spaces, n_vecs), ns_ok) = s_space_len h k in
      record { lookup_ok = ns_ok; n_s_spaces = n_s_spaces; n_vecs = n_vecs }

  unfoldable cap_resp : Handle D → String → SSpaceCapResp
  cap_resp h k =
      let (capacity, ns_ok) = s_space_cap h k in record { lookup_ok = ns_ok; cap = capacity }

pub record KnnLatencyResp : Type 0 where
  pub lookup_ok : Bool
  pub queue : ℤ
  pub query : ℤ
  pub bounds_ok : Bool

-- KNNLatency. A nil tracker of the handle, which panics, is none.
unfoldable latency_resp {ℓ} :
    {D : Type ℓ} → Handle D → String → ℤ → (ℕ → ℕ → ℕ) → Option KnnLatencyResp × Handle D
unfolding knn_queue_latency knn_query_latency
latency_resp h k d clock =
    let ns_ok = s_space_namespace h k in
    let (queue, h1) = knn_queue_latency h d (clock 0) in
    let (query, h2) = knn_query_latency h1 k d (clock 1) in
    elim queue [
      | none ↦ (none, h1)
      | some (l_queue, ok1) ↦ elim query [
        | none ↦ (none, h2)
        | some (l_query, ok2) ↦ (
          some (record {
            lookup_ok = ns_ok;
            queue = l_queue;
            query = l_query;
            bounds_ok = ok1 && (ok2 && ns_ok);
          }),
          h2,
        )
      ]
    ]
