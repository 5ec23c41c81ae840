-- ===== src/Tests/Queues.antt =====
-- Runs of the faucet of a pipeline and of the queue, and the fates of a request.
use ddrop.Base.{
  ℕ, ◌+◌, ◌≡◌, refl, not, ◌||◌, ◌&&◌, true, false, some, List, [], ◌∷◌, Perm, if◌then◌else◌,
}
use ddrop.Base.Int.{pos, sub_ℕ, ltb_ℤ}
use ddrop.Float.{whole_float}
use ddrop.Timex.{LatencyTracker}
use ddrop.Knnc.Items.{ScoreItem}
use ddrop.Knnc.SearchSpaces.{SearchSpaces}
use ddrop.Knnc.Pipeline.{Faucet, new_faucet, FeedStep, FeedRun}
use ddrop.Knnc.Pipeline.Feeding.{IsFed, FeedRun-IsFed}
use ddrop.Requestman.Query.{method_ok, args_ok, empty_result, consume_batches}
use ddrop.Requestman.Query.Consume.{KnnRequest, Consumed, new_knn_request, consume}
use ddrop.Requestman.Query.Consume.Success.{in_time, pipeline_in_time, consume_lem}
use ddrop.Requestman.Queue.{
  QueueItem, closes, blocks, process_queued, Spot, Processing, new_processing, QueueStep, QueueRun,
}
use ddrop.Requestman.Queue.Closing.{process_queued-closes}
use ddrop.Requestman.Queue.Limits.{IsLimited, QueueRun-IsLimited, QueueRun-returned}
use ddrop.Knnc.SearchSpaces.Scanning.{Producer, scan_start}
use ddrop.Tests.Requests.{request}
use ddrop.Tests.Scanning.{spaces}
use ddrop.Tests.Stages.{scored, score_by_value}

abbrev fed : Faucet ℕ
fed = record {
  closed_signal = true;
  closing = false;
  input_closed = true;
  admitted = [];
  scanners = [];
  abandoned = [];
  input = 5 ∷ [];
  panicked = false;
  scan_tick = record { added = 1; taken_off = 1 };
  accepted = (5 ∷ []) ∷ [];
}

fed_run : FeedRun true new_faucet fed
fed_run =
    FeedRun.goes_on
      (FeedRun.goes_on
        (FeedRun.goes_on
          (FeedRun.goes_on
            (FeedRun.goes_on (FeedRun.goes_on FeedRun.begins (FeedStep.admits (5 ∷ []) refl))
              (FeedStep.registers [] (5 ∷ []) [] refl))
            (FeedStep.sends [] 5 [] [] refl refl))
          (FeedStep.finishes [] [] refl))
        (FeedStep.signals_close refl refl))
      (FeedStep.closes refl refl)

FeedRun-IsFed_example : IsFed fed × Perm {A = ℕ} (5 ∷ []) (5 ∷ [])
FeedRun-IsFed_example = FeedRun-IsFed fed fed_run

-- With more than one caller, a scanner that passed the test before the close sends behind it.
abbrev burst : Faucet ℕ
burst = record fed {
  scanners = (5 ∷ []) ∷ [];
  input = [];
  panicked = true;
  scan_tick = record { added = 1; taken_off = 0 };
}

burst_run : FeedRun false new_faucet burst
burst_run =
    FeedRun.goes_on
      (FeedRun.goes_on
        (FeedRun.goes_on
          (FeedRun.goes_on (FeedRun.goes_on FeedRun.begins (FeedStep.admits (5 ∷ []) refl))
            (FeedStep.signals_close refl refl))
          (FeedStep.closes refl refl))
        (FeedStep.registers [] (5 ∷ []) [] refl))
      (FeedStep.panics [] 5 [] [] refl refl)

abbrev processed : Processing ℕ
processed = record {
  spot = Spot.returned;
  queue = 8 ∷ [];
  spawned = [];
  running = [];
  finished = 7 ∷ [];
  ticker = record { added = 1; taken_off = 1 };
}

queue_run : QueueRun true (pos 1) (new_processing (7 ∷ (8 ∷ []))) processed
queue_run =
    QueueRun.goes_on
      (QueueRun.goes_on
        (QueueRun.goes_on
          (QueueRun.goes_on
            (QueueRun.goes_on
              (QueueRun.goes_on QueueRun.begins (QueueStep.receives 7 (8 ∷ []) refl refl))
              (QueueStep.launches 7 refl refl))
            (QueueStep.registers [] 7 [] refl))
          (QueueStep.shuts_down refl refl))
        (QueueStep.ends [] 7 [] refl))
      (QueueStep.stops refl refl)

QueueRun-IsLimited_example : IsLimited 1 processed
QueueRun-IsLimited_example = QueueRun-IsLimited 1 (7 ∷ (8 ∷ [])) processed queue_run

QueueRun-returned_example : Perm {A = ℕ} (7 ∷ (8 ∷ [])) (7 ∷ (8 ∷ []))
QueueRun-returned_example = QueueRun-returned 1 (7 ∷ (8 ∷ [])) processed queue_run refl

-- As the code stands, with a limit of one, two requests are processed at a time.
abbrev crowded : Processing ℕ
crowded = record {
  spot = Spot.launched;
  queue = [];
  spawned = [];
  running = 8 ∷ (7 ∷ []);
  finished = [];
  ticker = record { added = 2; taken_off = 0 };
}

crowded_run : QueueRun false (pos 1) (new_processing (7 ∷ (8 ∷ []))) crowded
crowded_run =
    QueueRun.goes_on
      (QueueRun.goes_on
        (QueueRun.goes_on
          (QueueRun.goes_on
            (QueueRun.goes_on
              (QueueRun.goes_on
                (QueueRun.goes_on QueueRun.begins (QueueStep.receives 7 (8 ∷ []) refl refl))
                (QueueStep.launches 7 refl refl))
              (QueueStep.continues refl refl))
            (QueueStep.receives 8 [] refl refl))
          (QueueStep.launches 8 refl refl))
        (QueueStep.registers (8 ∷ []) 7 [] refl))
      (QueueStep.registers [] 8 [] refl)

valid : args_ok request ≡ true
unfolding args_ok method_ok
valid = refl

abbrev batches : List (List (ScoreItem ℕ ℕ))
batches = (scored ∷ []) ∷ []

-- The pipeline delivers them where a scan has spaces to start with.
abbrev delivered : Producer ℕ → List (List (ScoreItem ℕ ℕ))
delivered p = elim p.pending [ [] ↦ [] | s ∷ l ↦ batches ]

consume_lem_example :
    let out =
      consume score_by_value
        (new_knn_request request 4)
        (λ k. k)
        spaces
        (λ k. false)
        delivered
        true in
    let answer = consume_batches request (empty_result request) (delivered (scan_start spaces)) in
    let made = in_time request 0 && pipeline_in_time request (λ k. k) in
    (out.returned ≡ (if made then some true else some false))
    × (out.pipe_closes ≡ (if made && false then 0 else 1))
    × (out.sent ≡ (if made && true then answer.0 ∷ [] else []))
    × (out.cancels ≡ in_time request 0 && (not (pipeline_in_time request (λ k. k)) || not answer.1))
consume_lem_example = consume_lem score_by_value request 4 (λ k. k) spaces delivered true valid refl

abbrev tracker : LatencyTracker
tracker = record {
  chain = [];
  cfg = record { max_chain_link_n = pos 2; min_chain_link_size = pos 10; standard_period = pos 20 };
}

abbrev queued : QueueItem ℕ ℕ
queued = record {
  latency = some tracker;
  search_spaces = some spaces;
  request = new_knn_request request 4;
}

process_queued-closes_example :
    let run : KnnRequest ℕ → SearchSpaces ℕ → Consumed ℕ ℕ =
      λ r ss. consume score_by_value r (λ k. k) ss (λ k. false) delivered true in
    let fate = (process_queued run tracker queued false (λ k. 20 + k)).0.0 in
    (closes fate ≡ (
      if ltb_ℤ queued.request.args.ttl (sub_ℕ 20 queued.request.created)
      then 0
      else if blocks fate
      then 0
      else 1))
    × ((blocks fate && true) ≡ false)
process_queued-closes_example =
    process_queued-closes score_by_value (λ k. k) (λ k. false) delivered true tracker queued false
      (λ k. 20 + k)
