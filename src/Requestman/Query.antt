-- ===== src/Requestman/Query.antt =====
-- service/requestman/knnrequest.go: the arguments of a request, the score and the filter that it
-- passes to the pipeline, and the loop of consume that ranks what comes out of it.
pub mod Consume
pub mod Results
pub mod Pipeline
pub mod Scores
use Prim.Native.String.{String}
use ddrop.Base.{
  ℕ, ◌+◌, Bool, true, false, not, ◌&&◌, ◌||◌, Option, none, some, List, [], ◌∷◌, length, replicate,
  if◌then◌else◌, ltb,
}
use ddrop.Base.Int.{ℤ, pos, ltb_ℤ, ◌+ℤ◌, minus, pos_part}
use ddrop.Float.{Float}
use ddrop.Mathx.SafeVec
use ddrop.Mathx.SafeVec.{SafeVec, Distancer, as_distancer, new_safe_vec}
use ddrop.Knnc.Items.{ScoreItem, bubble}
use ddrop.Knnc.Stages.{MergeStagePartialArgs}
use ddrop.Knnc.Workers.{BaseWorkerArgs, BaseStageArgs}

-- A KNNMethod is an int, of which two values have a name.
pub data KnnMethod : Type 0 where
  euclidean_method cosine_method : KnnMethod
  other_method : ℤ → KnnMethod

unfoldable pub method_ok : KnnMethod → Bool
method_ok euclidean_method = true
method_ok cosine_method = true
method_ok (other_method n) = false

-- A nil QueryVec and an empty one are both the empty list: nothing tells them apart.
pub record KnnArgs {ℓ} (F : Type ℓ) : Type ℓ where
  pub namespace : String
  pub priority : ℤ
  pub query_vec : List F
  pub knn_method : KnnMethod
  pub ascending : Bool
  pub k : ℤ
  pub extent : F
  pub accept : F
  pub reject : F
  pub ttl : ℤ
  pub monitor : Bool

module _ {ℓ} {F : Type ℓ} ⦃f : Float F⦄ where
  unfoldable pub args_ok : KnnArgs F → Bool
  unfolding method_ok
  args_ok r =
      ltb_ℤ (pos 0) r.priority
      && ltb 0 (length r.query_vec)
      && method_ok r.knn_method
      && ltb_ℤ (pos 0) r.k
      && (f.lt f.nought r.extent && f.le r.extent f.one)
      && ltb_ℤ (pos 0) r.ttl

  -- The arguments of the workers, `elapsed` after the request was made. Its cancel signal is made
  -- by newKNNRequest.
  pub to_base_worker_args : KnnArgs F → ℕ → BaseWorkerArgs
  to_base_worker_args r elapsed = record {
    buf = r.priority;
    cancel_made = true;
    ttl = r.ttl +ℤ minus elapsed;
  }

  unfoldable pub to_base_stage_args : KnnArgs F → ℕ → BaseStageArgs
  unfolding to_base_worker_args
  to_base_stage_args r elapsed = record {
    n_workers = r.priority;
    worker = to_base_worker_args r elapsed;
  }

  -- The arguments that toMergeStage passes on.
  unfoldable pub to_merge_args : KnnArgs F → ℕ → MergeStagePartialArgs
  unfolding to_base_stage_args
  to_merge_args r elapsed = record {
    k = r.k;
    ascending = r.ascending;
    send_interval = pos 2;
    stage = to_base_stage_args r elapsed;
  }

  -- The item of a score, without its distancer.
  abbrev pub scored {κ} : {D : Type κ} → F × Bool → ScoreItem F D × Bool
  scored r = (record { distancer = none; score = r.0; set = false }, r.1)

  -- The query vector, which newKNNRequest makes of the arguments, is read and may cache its norm.
  pub to_map_func : KnnArgs F → SafeVec F → SafeVec F → (ScoreItem F (SafeVec F) × Bool) × SafeVec F
  to_map_func r query other =
      let by_cosine = SafeVec.cosine_similarity query (some (as_distancer other)) in
      elim r.knn_method [
        | euclidean_method ↦
            (scored (SafeVec.euclidean_distance query (some (as_distancer other))), query)
        | cosine_method ↦ (scored by_cosine.0, by_cosine.1)
        | other_method n ↦ (scored (f.nought, false), query)
      ]

  unfoldable pub to_filter_func {κ} : {D : Type κ} → KnnArgs F → ScoreItem F D → Bool
  to_filter_func r s =
      f.lt s.score r.reject && r.ascending || f.lt r.reject s.score && not r.ascending

module _ {ℓ κ} {F : Type ℓ} {D : Type κ} ⦃f : Float F⦄ where
  -- `make(knnc.ScoreItems, r.args.K)`
  unfoldable pub empty_result : KnnArgs F → List (ScoreItem F D)
  empty_result r =
      replicate (pos_part r.k) (record { distancer = none; score = f.nought; set = false })

  -- `result[len(result)-1]`, where there is one: K > 0 in valid arguments.
  unfoldable pub worst : List (ScoreItem F D) → Option (ScoreItem F D)
  worst [] = none
  worst (x ∷ []) = some x
  worst (x ∷ y ∷ xs) = worst (y ∷ xs)

  -- `done && worst.Set`
  unfoldable pub done : KnnArgs F → List (ScoreItem F D) → Bool
  done r result = elim (worst result) [
    | none ↦ false
    | some w ↦
        (f.le w.score r.accept && r.ascending || f.le r.accept w.score && not r.ascending) && w.set
  ]

  -- The callback of ConsumeIter: the result, and whether the iteration goes on.
  unfoldable pub consume_items :
      KnnArgs F → List (ScoreItem F D) → List (ScoreItem F D) → List (ScoreItem F D) × Bool
  consume_items r result [] = (result, true)
  consume_items r result (item ∷ items) =
      let rest = consume_items r (bubble result item r.ascending) items in
      if done r result then (result, false) else rest

  -- ConsumeIter over the batches in the order in which they come out of the pipeline.
  unfoldable pub consume_batches :
      KnnArgs F → List (ScoreItem F D) → List (List (ScoreItem F D)) → List (ScoreItem F D) × Bool
  consume_batches r result [] = (result, true)
  consume_batches r result (batch ∷ batches) =
      let (result', go) = consume_items r result batch in
      let rest = consume_batches r result' batches in if go then rest else (result', false)
