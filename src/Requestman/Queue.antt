-- ===== src/Requestman/Queue.antt =====
-- service/requestman/knnqueue.go: what becomes of a queued request, and the loop that starts a
-- goroutine for each. `clock k` is the k-th reading of the clock in such a goroutine.
pub mod Closing
pub mod Limits
use ddrop.Base.{
  ℕ, ◌+◌, ◌≡◌, Bool, true, false, not, ◌&&◌, Option, none, some, List, [], ◌∷◌, ◌++◌, length, ◌==◌,
  if◌then◌else◌,
}
use ddrop.Base.Int.{ℤ, pos, sub_ℕ, ltb_ℤ, ◌+ℤ◌}
use ddrop.Float.{Float}
use ddrop.Timex
use ddrop.Timex.{LatencyTracker, register, register_callback, average_std}
use ddrop.Knnc.SearchSpaces.{SearchSpaces}
use ddrop.Knnc.Syncx.{Ticker, new_ticker, add_await, done_await, below_n}
use ddrop.Knnc.Stages.{is_made}
use ddrop.Requestman.Query.Consume.{KnnRequest, Consumed}

-- knnQueueItem, with the two parts of its namespaces item. A nil pointer is none.
pub record QueueItem {ℓ κ} (F : Type ℓ) (C : Type κ) : Type (ℓ ⊔ κ) where
  pub latency : Option LatencyTracker
  pub search_spaces : Option (SearchSpaces C)
  pub request : KnnRequest F

-- What becomes of a request: its pipe is left as it is, it is closed at once, or consume has it.
pub data Fate {ℓ κ} (F : Type ℓ) (D : Type κ) : Type (ℓ ⊔ κ) where
  left_open refused : Fate F D
  consumed : Consumed F D → Fate F D

-- How often the pipe of the request is closed.
abbrev pub closes {ℓ κ} : {F : Type ℓ} {D : Type κ} → Fate F D → ℕ
closes Fate.left_open = 0
closes Fate.refused = 1
closes (Fate.consumed c) = c.pipe_closes

-- Whether its goroutine blocks for good.
abbrev pub blocks {ℓ κ} : {F : Type ℓ} {D : Type κ} → Fate F D → Bool
blocks Fate.left_open = false
blocks Fate.refused = false
blocks (Fate.consumed c) = not (is_made c.returned)

module _ {ℓ κ μ} {F : Type ℓ} {C : Type κ} {D : Type μ}
    (consume : KnnRequest F → SearchSpaces C → Consumed F D) where
  -- The part of process behind the first tests. The deferred callback runs where consume returns.
  pub process_with :
      KnnRequest F
      → SearchSpaces C
      → LatencyTracker
      → Bool
      → (ℕ → ℕ)
      → Fate F D × Option LatencyTracker
  unfolding average_std register_callback
  process_with request ss lt cancelled clock =
      let queue_wait = sub_ℕ (clock 0) request.created in
      let ((estimation, _), lt') = average_std lt (clock 1) (clock 2) (clock 3) (clock 4) in
      let consumed_by = consume request ss in
      let registered = register_callback lt' (clock 5) (clock 6) (clock 7) (clock 8) (clock 9) in
      if cancelled
      then (Fate.refused, some lt)
      else if ltb_ℤ request.args.ttl (queue_wait +ℤ estimation)
      then (Fate.refused, some lt')
      else (
        Fate.consumed consumed_by,
        some (if is_made consumed_by.returned then registered else lt'),
      )

  -- process: the fate of the request, and the tracker of its namespace.
  pub process : QueueItem F C → Bool → (ℕ → ℕ) → Fate F D × Option LatencyTracker
  unfolding process_with
  process qi cancelled clock = elim qi.search_spaces [
    | none ↦ (Fate.refused, qi.latency)
    | some ss ↦ elim qi.latency [
      | none ↦ (Fate.refused, none)
      | some lt ↦ process_with qi.request ss lt cancelled clock
    ]
  ]

  -- The goroutine of startProcessing, behind its AddAwait: the fate, the tracker of the namespace and
  -- that of the queue.
  pub process_queued :
      LatencyTracker
      → QueueItem F C
      → Bool
      → (ℕ → ℕ)
      → (Fate F D × Option LatencyTracker) × LatencyTracker
  unfolding process register
  process_queued queue_latency qi cancelled clock =
      let queue_wait = sub_ℕ (clock 0) qi.request.created in
      let queue_latency' = register queue_latency queue_wait (clock 1) (clock 2) (clock 3) in
      let processed = process qi cancelled (λ k. clock (k + 4)) in
      if ltb_ℤ qi.request.args.ttl queue_wait
      then ((Fate.left_open, qi.latency), queue_latency')
      else (processed, queue_latency')

-- Where the loop stands: at its receive, with an item behind it, behind the start of a goroutine,
-- waiting for the others to end, or at its end.
pub data Spot {ℓ} (Q : Type ℓ) : Type ℓ where
  receiving : Spot Q
  blocked : Q → Spot Q
  launched : Spot Q
  stopping : Spot Q
  returned : Spot Q

-- The loop and its goroutines: the items that are to come, that a goroutine was started for, that
-- the ticker counts, and that are done with.
pub record Processing {ℓ} (Q : Type ℓ) : Type ℓ where
  pub spot : Spot Q
  pub queue : List Q
  pub spawned : List Q
  pub running : List Q
  pub finished : List Q
  pub ticker : Ticker

abbrev pub new_processing {ℓ} : {Q : Type ℓ} → List Q → Processing Q
new_processing queue = record {
  spot = Spot.receiving;
  queue = queue;
  spawned = [];
  running = [];
  finished = [];
  ticker = new_ticker;
}

module _ {ℓ} {Q : Type ℓ} where
  -- The steps of startProcessing. With `prompt`, a goroutine calls AddAwait before the loop that
  -- started it goes on; the code does not wait for that. A goroutine may never
  -- end, since its process may block.
  pub data QueueStep (prompt : Bool) (max_concurrent : ℤ) (p : Processing Q)
      : Processing Q → Type ℓ where
    receives :
        (q : Q) (queue : List Q)
        → p.spot ≡ Spot.receiving
        → p.queue ≡ q ∷ queue
        → QueueStep prompt max_concurrent p (record p { spot = Spot.blocked q; queue = queue })
    launches :
        (q : Q)
        → p.spot ≡ Spot.blocked q
        → below_n p.ticker max_concurrent ≡ true
        → QueueStep prompt max_concurrent p
            (record p { spot = Spot.launched; spawned = q ∷ p.spawned })
    registers :
        (before : List Q) (q : Q) (after : List Q)
        → p.spawned ≡ before ++ q ∷ after
        → QueueStep prompt max_concurrent p (record p {
          spawned = before ++ after;
          running = q ∷ p.running;
          ticker = add_await p.ticker;
        })
    ends :
        (before : List Q) (q : Q) (after : List Q)
        → p.running ≡ before ++ q ∷ after
        → QueueStep prompt max_concurrent p (record p {
          running = before ++ after;
          finished = q ∷ p.finished;
          ticker = done_await p.ticker;
        })
    continues :
        p.spot ≡ Spot.launched
        → (prompt && not (length p.spawned == 0)) ≡ false
        → QueueStep prompt max_concurrent p (record p { spot = Spot.receiving })
    shuts_down :
        p.spot ≡ Spot.launched
        → (prompt && not (length p.spawned == 0)) ≡ false
        → QueueStep prompt max_concurrent p (record p { spot = Spot.stopping })
    stops :
        p.spot ≡ Spot.stopping
        → below_n p.ticker (pos 1) ≡ true
        → QueueStep prompt max_concurrent p (record p { spot = Spot.returned })

  pub data QueueRun (prompt : Bool) (max_concurrent : ℤ) (p : Processing Q)
      : Processing Q → Type ℓ where
    begins : QueueRun prompt max_concurrent p p
    goes_on :
        {q r : Processing Q}
        → QueueRun prompt max_concurrent p q
        → QueueStep prompt max_concurrent q r
        → QueueRun prompt max_concurrent p r
