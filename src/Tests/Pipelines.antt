-- ===== src/Tests/Pipelines.antt =====
-- A run of a whole request, from what was scanned to its answer.
use ddrop.Base.{ℕ, items_of, false, Option, none, some, ◌≡◌, refl, true, [], ◌∷◌, arith}
use ddrop.Float.{whole_float, ℕ-IsStrict, ℕ-IsWeak}
use ddrop.Ranking.{bubble_insert, bubble_loop, trim}
use ddrop.Ranking.TopK.{TopK}
use ddrop.Mathx.SafeVec.Agreement.{IsCached}
use ddrop.Knnc.Items.{score_slot, trim_items}
use ddrop.Knnc.Stages.{
  start_pool, Step, Run, map_outcome, filter_outcome, merge_worker, merge_loop, try_send,
}
use ddrop.Knnc.Stages.Composition.{kept_items}
use ddrop.Knnc.Stages.Threads.{Interleaved, MergeRun}
use ddrop.Requestman.Query.{
  empty_result, consume_batches, to_filter_func, to_map_func, to_merge_args, to_base_stage_args,
  consume_items, done, worst, scored as scored_by,
}
use ddrop.Requestman.Query.Pipeline.{candidates, AreNumbered, PipelineRun, PipelineRun-TopK}
use ddrop.Knnc.Pipeline.{Faucet, new_faucet, FeedStep, FeedRun}
use ddrop.Requestman.Query.Pipeline.Fed.{fed-TopK}
use ddrop.Requestman.Query.Scores.{score_of, to_map_func-eq}
use ddrop.Tests.Requests.{request}
use ddrop.Tests.Stages.{ended_stuck, map_run, scored, scanned, score_by_value, ended}
use ddrop.Tests.Vectors.{v, w}

filter_run : Run (filter_outcome (to_filter_func request)) (start_pool (scored ∷ []) 1) ended
unfolding start_pool filter_outcome to_filter_func
filter_run =
    Run.then_step (Run.then_step Run.still (Step.take _ scored [] 0 scored refl refl refl))
      (Step.send _ [] scored [] refl)

merge_run : MergeRun (to_merge_args request 0) (scored ∷ []) ((scored ∷ []) ∷ [])
unfolding to_merge_args to_base_stage_args merge_worker merge_loop try_send bubble_insert
    bubble_loop trim
merge_run = record {
  received = (scored ∷ []) ∷ [];
  workers = refl;
  dealt = Interleaved.moves [] scored [] [] refl (Interleaved.ended refl);
  sent = Interleaved.moves [] (scored ∷ []) [] [] refl (Interleaved.ended refl);
}

whole_run : PipelineRun request 0 score_by_value scanned ((scored ∷ []) ∷ [])
whole_run = record {
  other_mappers = 0;
  mapped = ended;
  map_run = map_run;
  map_unbroken = refl;
  map_ended = ended_stuck (map_outcome score_by_value) ended refl refl;
  other_filters = 0;
  filtered = ended;
  filter_run = filter_run;
  filter_unbroken = refl;
  filter_ended = ended_stuck (filter_outcome (to_filter_func request)) ended refl refl;
  merge_run = merge_run;
}

all_taken : (consume_batches request (empty_result request) ((scored ∷ []) ∷ [])).1 ≡ true
unfolding consume_batches consume_items done worst empty_result
all_taken = refl

numbered : AreNumbered (λ x. true) (candidates request score_by_value scanned)
unfolding kept_items map_outcome filter_outcome to_filter_func
numbered = (refl, tt)

PipelineRun-TopK_example :
    TopK score_slot true 2
      (candidates request score_by_value scanned)
      (trim_items (consume_batches request (empty_result request) ((scored ∷ []) ∷ [])).0)
PipelineRun-TopK_example =
    PipelineRun-TopK (λ x. true) request 0 score_by_value ℕ-IsStrict ℕ-IsWeak scanned
      ((scored ∷ []) ∷ []) (omega arith) numbered whole_run all_taken

to_map_func-eq_example :
    let out = to_map_func request v w in
    (out.0 ≡ scored_by (score_of request.knn_method v.vec w.vec))
    × IsCached out.1
    × (out.1.vec ≡ v.vec)
to_map_func-eq_example = to_map_func-eq request v w refl refl

abbrev fed : Faucet (Option ℕ)
fed = record {
  closed_signal = true;
  closing = false;
  input_closed = true;
  admitted = [];
  scanners = [];
  abandoned = [];
  input = scanned;
  panicked = false;
  scan_tick = record { added = 1; taken_off = 1 };
  accepted = scanned ∷ [];
}

fed_run : FeedRun true new_faucet fed
fed_run =
    FeedRun.goes_on
      (FeedRun.goes_on
        (FeedRun.goes_on
          (FeedRun.goes_on
            (FeedRun.goes_on
              (FeedRun.goes_on (FeedRun.goes_on FeedRun.begins (FeedStep.admits scanned refl))
                (FeedStep.registers [] scanned [] refl))
              (FeedStep.sends [] (some 3) (none ∷ []) [] refl refl))
            (FeedStep.signals_close refl refl))
          (FeedStep.sends [] none [] [] refl refl))
        (FeedStep.finishes [] [] refl))
      (FeedStep.closes refl refl)

fed-TopK_example :
    TopK score_slot true 2
      (candidates request score_by_value (items_of (scanned ∷ [])))
      (trim_items (consume_batches request (empty_result request) ((scored ∷ []) ∷ [])).0)
fed-TopK_example =
    fed-TopK (λ x. true) request 0 score_by_value ℕ-IsStrict ℕ-IsWeak fed ((scored ∷ []) ∷ [])
      fed_run refl refl (omega arith) numbered whole_run all_taken
