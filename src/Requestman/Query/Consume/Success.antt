-- ===== src/Requestman/Query/Consume/Success.antt =====
-- When consume succeeds, and what it sends then.
use ddrop.Base.{
  ℕ, ◌+◌, ◌≡◌, refl, sym, ap, ◌∙◌, inl, inr, Bool, true, false, not, ◌&&◌, ◌||◌, Option, none, some,
  List, [], ◌∷◌, arith, if◌then◌else◌, Bool-cases,
}
use ddrop.Base.Int.{pos, ltb_ℤ, minus, ◌+ℤ◌}
use ddrop.Float.{Float}
use ddrop.Knnc.Items.{ScoreItem}
use ddrop.Knnc.Pipeline.{new_pipeline, consume_loop, consume_iter, pipeline_ok}
use ddrop.Knnc.SearchSpace
use ddrop.Knnc.SearchSpaces
use ddrop.Knnc.SearchSpaces.{SearchSpaces, inherited}
use ddrop.Knnc.SearchSpaces.Scanning.{Producer, scan_start, scan_spaces}
use ddrop.Knnc.Stages.{
  is_made, map_ok, filter_ok, merge_ok, map_partial_ok, filter_partial_ok, merge_partial_ok,
}
use ddrop.Knnc.Workers.{BaseWorkerArgs, worker_ok, stage_ok}
use ddrop.Requestman.Query.{
  KnnArgs, args_ok, to_base_worker_args, to_base_stage_args, to_filter_func, to_merge_args,
  empty_result, consume_items, consume_batches,
}
use ddrop.Requestman.Query.Consume.{
  request_ok, to_scan_chans, to_map_stage, to_filter_stage, to_merge_stage, new_knn_request, opened,
  to_pipeline, receive, consume,
}

module _ (w : BaseWorkerArgs)
    (map_stage filter_stage merge_stage : Option ℕ → Option ℕ × Bool) where
  -- A pipeline of stages that open the channels 1, 2 and 3.
  new_pipeline-made :
      (ok map_ok filter_ok merge_ok : Bool)
      → worker_ok w ≡ ok
      → map_stage (some 0) ≡ opened map_ok 1
      → filter_stage (some 1) ≡ opened filter_ok 2
      → merge_stage (some 2) ≡ opened merge_ok 3
      → is_made (
          new_pipeline
            (record {
              worker = w;
              map_stage = some map_stage;
              filter_stage = some filter_stage;
              merge_stage = some merge_stage;
            })
            0)
        ≡ ok && map_ok && filter_ok && merge_ok
  unfolding new_pipeline pipeline_ok
  new_pipeline-made false m g h e0 e1 e2 e3 = ground (arith, e0)
  new_pipeline-made true false g h e0 e1 e2 e3 = rw e1 (ground (arith, e0))
  new_pipeline-made true true false h e0 e1 e2 e3 = rw (e1, e2) (ground (arith, e0))
  new_pipeline-made true true true false e0 e1 e2 e3 = rw (e1, e2, e3) (ground (arith, e0))
  new_pipeline-made true true true true e0 e1 e2 e3 = rw (e1, e2, e3) (ground (arith, e0))

module _ {ℓ} {F : Type ℓ} ⦃f : Float F⦄ where
  -- The deadline of a request has not passed.
  abbrev pub in_time : KnnArgs F → ℕ → Bool
  in_time r elapsed = ltb_ℤ (pos 0) (r.ttl +ℤ minus elapsed)

  -- The deadline has not passed when toPipeline reads the clock.
  abbrev pub pipeline_in_time : KnnArgs F → (ℕ → ℕ) → Bool
  pipeline_in_time r elapsed =
      in_time r (elapsed 1)
      && in_time r (elapsed 2)
      && in_time r (elapsed 3)
      && in_time r (elapsed 4)

  module _ (r : KnnArgs F) (valid : args_ok r ≡ true) where
    has_priority : ltb_ℤ (pos 0) r.priority ≡ true
    unfolding args_ok
    has_priority = ground arith

    has_k : ltb_ℤ (pos 0) r.k ≡ true
    unfolding args_ok
    has_k = ground arith

    has_extent : (f.lt f.nought r.extent && f.le r.extent f.one) ≡ true
    unfolding args_ok
    has_extent = ground arith

    worker_ok-eq : (elapsed : ℕ) → worker_ok (to_base_worker_args r elapsed) ≡ in_time r elapsed
    unfolding worker_ok to_base_worker_args
    worker_ok-eq elapsed = ground (arith, has_priority)

    stage_ok-eq : (elapsed : ℕ) → stage_ok (to_base_stage_args r elapsed) ≡ in_time r elapsed
    unfolding stage_ok to_base_stage_args
    stage_ok-eq elapsed = ground (arith, has_priority, worker_ok-eq elapsed)

    scan-in_time {κ} :
        {C : Type κ} (ss : SearchSpaces C) (elapsed : ℕ)
        → f.le f.nought r.extent ≡ true
        → to_scan_chans r elapsed ss ≡ (if in_time r elapsed then some (scan_start ss) else none)
    unfolding to_scan_chans scan_spaces SearchSpaces.scan_ok SearchSpace.scan_ok inherited
        to_base_stage_args
    scan-in_time ss elapsed h =
        ground (arith, h, has_extent, stage_ok-eq elapsed, worker_ok-eq elapsed)

    merge-opens :
        (elapsed ch : ℕ) → to_merge_stage r elapsed (some ch) ≡ opened (in_time r elapsed) 3
    unfolding to_merge_stage merge_ok merge_partial_ok to_merge_args
    merge-opens elapsed ch = ground (arith, has_k, stage_ok-eq elapsed)

    module _ {κ} {D : Type κ} where
      map-opens :
          (map_func : D → ScoreItem F D × Bool) (elapsed ch : ℕ)
          → to_map_stage map_func r elapsed (some ch) ≡ opened (in_time r elapsed) 1
      unfolding to_map_stage map_ok map_partial_ok
      map-opens map_func elapsed ch = ground (arith, stage_ok-eq elapsed)

      filter-opens :
          (filter_func : ScoreItem F D → Bool) (elapsed ch : ℕ)
          → to_filter_stage filter_func r elapsed (some ch) ≡ opened (in_time r elapsed) 2
      unfolding to_filter_stage filter_ok filter_partial_ok
      filter-opens filter_func elapsed ch = ground (arith, stage_ok-eq elapsed)

      pipeline-in_time :
          (map_func : D → ScoreItem F D × Bool) (elapsed : ℕ → ℕ)
          → is_made (to_pipeline map_func r elapsed) ≡ pipeline_in_time r elapsed
      unfolding to_pipeline
      pipeline-in_time map_func elapsed =
          new_pipeline-made (to_base_worker_args r (elapsed 1))
            (to_map_stage map_func r (elapsed 2))
            (to_filter_stage (to_filter_func {D = D} r) r (elapsed 3))
            (to_merge_stage r (elapsed 4)) (in_time r (elapsed 1)) (in_time r (elapsed 2))
            (in_time r (elapsed 3)) (in_time r (elapsed 4)) (worker_ok-eq (elapsed 1))
            (map-opens map_func (elapsed 2) 0) (filter-opens (to_filter_func r) (elapsed 3) 1)
            (merge-opens (elapsed 4) 2)

or_false : (b : Bool) → b ≡ b || false
or_false b = ground arith

module _ {ℓ κ} {F : Type ℓ} {D : Type κ} ⦃f : Float F⦄ where
  -- The loop of ConsumeIter that nobody cancels.
  consume_loop-eq :
      (r : KnnArgs F) (result : List (ScoreItem F D)) (cancels : Bool) (k : ℕ)
      (batches : List (List (ScoreItem F D)))
      → let out = consume_batches r result batches in
        consume_loop (λ n. false) (receive r) (result, cancels) k batches
        ≡ (out.0, cancels || not out.1)
  unfolding consume_loop receive consume_batches
  consume_loop-eq r result cancels k [] = ap (λ c. (result, c)) (or_false cancels)
  consume_loop-eq r result cancels k (batch ∷ batches) =
      let one = consume_items r result batch in
      let rest = consume_loop-eq r one.0 (cancels || not one.1) (k + 1) batches in
      elim (Bool-cases one.1) [
        | inl e ↦
            let out = consume_batches r one.0 batches in
            let rest' = rw e at rest in
            rw e (rest' ∙ ap (λ c. (out.0, c || not out.1)) (sym (or_false cancels)))
        | inr e ↦ rw e refl
      ]

  -- A valid request with an extent that is not below 0, which nobody cancels, is consumed like this,
  -- by whether the deadline has passed at none of its readings of the clock, and whether the requester
  -- receives from the pipe. Where it has passed at one, consume returns false, closes the pipe once
  -- and sends nothing. Where it has not and the requester receives, consume returns true, closes the
  -- pipe once and sends one result: the one that the loop gives over the batches that the pipeline
  -- delivers for a scan of just these search spaces. Where the requester does not receive, consume
  -- never returns, and closes and sends nothing. It cancels the request where the pipeline fails or
  -- the loop stops.
  pub consume_lem :
      (map_func : D → ScoreItem F D × Bool) (args : KnnArgs F) (now : ℕ) (elapsed : ℕ → ℕ)
      (ss : SearchSpaces D) (batches : Producer D → List (List (ScoreItem F D))) (received : Bool)
      → args_ok args ≡ true
      → f.le f.nought args.extent ≡ true
      → let out =
          consume map_func (new_knn_request args now) elapsed ss (λ k. false) batches received in
        let answer = consume_batches args (empty_result args) (batches (scan_start ss)) in
        let made = in_time args (elapsed 0) && pipeline_in_time args elapsed in
        (out.returned ≡ (if made then (if received then some true else none) else some false))
        × (out.pipe_closes ≡ (if made && not received then 0 else 1))
        × (out.sent ≡ (if made && received then answer.0 ∷ [] else []))
        × (out.cancels
            ≡ in_time args (elapsed 0) && (not (pipeline_in_time args elapsed) || not answer.1))
  unfolding consume request_ok new_knn_request consume_iter
  consume_lem map_func args now elapsed ss batches received valid h =
      let scans = scan-in_time args valid ss (elapsed 0) h in
      let pipes = pipeline-in_time args valid map_func elapsed in
      let loop = consume_loop-eq args (empty_result args) false 0 (batches (scan_start ss)) in
      elim (Bool-cases (in_time args (elapsed 0))) [
        | inr late ↦
            let none_made = rw late at scans in rw (valid, none_made, late) (refl, refl, refl, refl)
        | inl early ↦
            let made = rw early at scans in
            elim (Bool-cases (pipeline_in_time args elapsed)) [
              | inr failed ↦ rw (valid, made, pipes, early, failed) (refl, refl, refl, refl)
              | inl piped ↦ elim (Bool-cases received) [
                | inl r ↦ rw (valid, made, pipes, loop, early, piped, r) (refl, refl, refl, refl)
                | inr r ↦ rw (valid, made, pipes, loop, early, piped, r) (refl, refl, refl, refl)
              ]
            ]
      ]
