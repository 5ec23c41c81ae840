-- ===== src/Requestman/Query/Consume.antt =====
-- service/requestman/knnrequest.go: a request, its pipeline, and the whole of consume. `elapsed k` is
-- the time since the request was made at its k-th reading. A channel between stages is a number, and
-- none is nil.
pub mod Success
use ddrop.Base.{
  ℕ, ◌≡◌, Bool, true, false, not, ◌&&◌, ◌||◌, Option, none, some, List, [], ◌∷◌, if◌then◌else◌,
}
use ddrop.Float.{Float}
use ddrop.Mathx.SafeVec.{SafeVec, new_safe_vec}
use ddrop.Knnc.Items.{ScoreItem}
use ddrop.Knnc.Pipeline.{NewPipelineArgs, Connected, new_pipeline, consume_iter}
use ddrop.Knnc.SearchSpaces.{SearchSpaces, SpacesScanArgs}
use ddrop.Knnc.SearchSpaces.Scanning.{Producer, scan_spaces}
use ddrop.Knnc.Stages.{is_made, map_ok, filter_ok, merge_ok}
use ddrop.Requestman.Query.{
  KnnArgs, args_ok, to_base_worker_args, to_base_stage_args, to_filter_func, to_merge_args,
  empty_result, consume_items,
}

-- knnRequest, as newKNNRequest makes it at `created`: its pipe and its signal are made.
pub record KnnRequest {ℓ} (F : Type ℓ) : Type ℓ where
  pub args : KnnArgs F
  pub query_vec : SafeVec F
  pub created : ℕ

-- What consume leaves: how often it closed the pipe, what it sent into it, whether it cancelled the
-- request, and what it returned, which is none where it blocks for good.
pub record Consumed {ℓ κ} (F : Type ℓ) (D : Type κ) : Type (ℓ ⊔ κ) where
  pub pipe_closes : ℕ
  pub sent : List (List (ScoreItem F D))
  pub cancels : Bool
  pub returned : Option Bool

-- The deferred close, which runs when the body returns.
abbrev pub deferred_closes : Option Bool → ℕ
deferred_closes none = 0
deferred_closes (some ok) = 1

abbrev pub leave {ℓ κ} :
    {F : Type ℓ} {D : Type κ} → List (List (ScoreItem F D)) → Bool → Option Bool → Consumed F D
leave sent cancels returned = record {
  pipe_closes = deferred_closes returned;
  sent = sent;
  cancels = cancels;
  returned = returned;
}

-- The channel that a stage opens, where its arguments are valid.
abbrev pub opened : Bool → ℕ → Option ℕ × Bool
opened valid ch = if valid then (some ch, true) else (none, false)

module _ {ℓ} {F : Type ℓ} ⦃f : Float F⦄ where
  unfoldable pub new_knn_request : KnnArgs F → ℕ → KnnRequest F
  new_knn_request args now = record {
    args = args;
    query_vec = new_safe_vec args.query_vec;
    created = now;
  }

  -- Ok, for a request that newKNNRequest made.
  pub request_ok : KnnRequest F → Bool
  request_ok r = args_ok r.args

  pub to_merge_stage : KnnArgs F → ℕ → Option ℕ → Option ℕ × Bool
  to_merge_stage r elapsed input =
      opened (merge_ok (record { input_made = is_made input; partial = to_merge_args r elapsed })) 3

  -- toScanChans, and the call of Scan in consume.
  pub to_scan_chans {υ} : {C : Type υ} → KnnArgs F → ℕ → SearchSpaces C → Option (Producer C)
  unfolding scan_spaces
  to_scan_chans r elapsed ss =
      scan_spaces ss (record { extent = r.extent; stage = to_base_stage_args r elapsed })

module _ {ℓ κ} {F : Type ℓ} {D : Type κ} ⦃f : Float F⦄ where
  pub to_map_stage : (D → ScoreItem F D × Bool) → KnnArgs F → ℕ → Option ℕ → Option ℕ × Bool
  to_map_stage map_func r elapsed input =
      opened
        (map_ok (record {
          input_made = is_made input;
          partial = record { map_func = some map_func; stage = to_base_stage_args r elapsed };
        }))
        1

  pub to_filter_stage : (ScoreItem F D → Bool) → KnnArgs F → ℕ → Option ℕ → Option ℕ × Bool
  to_filter_stage filter_func r elapsed input =
      opened
        (filter_ok (record {
          input_made = is_made input;
          partial = record { filter_func = some filter_func; stage = to_base_stage_args r elapsed };
        }))
        2

  pub to_pipeline : (D → ScoreItem F D × Bool) → KnnArgs F → (ℕ → ℕ) → Option (Connected ℕ ℕ)
  unfolding new_pipeline to_map_stage to_filter_stage to_merge_stage
  to_pipeline map_func r elapsed =
      new_pipeline
        (record {
          worker = to_base_worker_args r (elapsed 1);
          map_stage = some (to_map_stage map_func r (elapsed 2));
          filter_stage = some (to_filter_stage (to_filter_func {D = D} r) r (elapsed 3));
          merge_stage = some (to_merge_stage r (elapsed 4));
        })
        0

  -- The receiver of ConsumeIter: the result, and whether it cancelled the request.
  pub receive :
      KnnArgs F
      → List (ScoreItem F D) × Bool
      → List (ScoreItem F D)
      → (List (ScoreItem F D) × Bool) × Bool
  receive r (result, cancels) batch =
      let (result', go) = consume_items r result batch in ((result', cancels || not go), go)

  -- consume. `batches` is what the pipeline delivers for the scanners that a producer starts. The pipe
  -- has no buffer: the send at the end blocks for good where the requester does not receive from it.
  unfoldable pub consume {υ} :
      {C : Type υ}
      → (D → ScoreItem F D × Bool)
      → KnnRequest F
      → (ℕ → ℕ)
      → SearchSpaces C
      → (ℕ → Bool)
      → (Producer C → List (List (ScoreItem F D)))
      → Bool
      → Consumed F D
  unfolding request_ok to_scan_chans to_pipeline consume_iter receive
  consume map_func r elapsed ss cancelled batches received =
      if not (request_ok r)
      then leave [] false (some false)
      else elim (to_scan_chans r.args (elapsed 0) ss) [
        | none ↦ leave [] false (some false)
        | some scans ↦
            let ((result, cancels), _) =
              consume_iter cancelled (some (receive r.args)) (empty_result r.args, false)
                (batches scans) in
            if not (is_made (to_pipeline map_func r.args elapsed))
            then leave [] true (some false)
            else if received
            then leave (result ∷ []) cancels (some true)
            else leave [] cancels none
      ]
