-- ===== src/Requestman/Queue/Closing.antt =====
-- What becomes of a queued request, and of its pipe.
use ddrop.Base.{
  ℕ, ◌+◌, ◌≡◌, refl, inl, inr, Bool, true, false, Option, none, some, List, if◌then◌else◌,
  Bool-cases, Option-cases, ◌&&◌,
}
use ddrop.Base.Int.{sub_ℕ, ltb_ℤ, ◌+ℤ◌}
use ddrop.Float.{Float}
use ddrop.Timex.{LatencyTracker, average_std}
use ddrop.Knnc.Items.{ScoreItem}
use ddrop.Knnc.SearchSpaces.{SearchSpaces}
use ddrop.Requestman.Query.Consume.{
  KnnRequest, Consumed, consume, request_ok, to_scan_chans, to_pipeline,
}
use ddrop.Knnc.SearchSpaces.Scanning.{Producer}
use ddrop.Knnc.Stages.{is_made}
use ddrop.Requestman.Queue.{QueueItem, Fate, closes, blocks, process_with, process, process_queued}

-- The fate of an item whose parts are both there, where nobody cancels.
pub process_queued-fate {ℓ κ μ} :
    {F : Type ℓ} {C : Type κ} {D : Type μ} (run : KnnRequest F → SearchSpaces C → Consumed F D)
    (queue_latency : LatencyTracker) (item : QueueItem F C) (clock : ℕ → ℕ) (ss : SearchSpaces C)
    (tracker : LatencyTracker)
    → item.search_spaces ≡ some ss
    → item.latency ≡ some tracker
    → let ((estimation, _), _) = average_std tracker (clock 5) (clock 6) (clock 7) (clock 8) in
      let ttl = item.request.args.ttl in
      let created = item.request.created in
      (process_queued run queue_latency item false clock).0.0 ≡ (
        if ltb_ℤ ttl (sub_ℕ (clock 0) created)
        then Fate.left_open
        else if ltb_ℤ ttl (sub_ℕ (clock 4) created +ℤ estimation)
        then Fate.refused
        else Fate.consumed (run item.request ss))
unfolding process_queued process process_with
process_queued-fate run queue_latency item clock ss tracker spaces tracked =
    let ((estimation, _), _) = average_std tracker (clock 5) (clock 6) (clock 7) (clock 8) in
    let ttl = item.request.args.ttl in
    let created = item.request.created in
    elim (Bool-cases (ltb_ℤ ttl (sub_ℕ (clock 0) created))) [
      | inl late ↦ rw late refl
      | inr early ↦ elim (Bool-cases (ltb_ℤ ttl (sub_ℕ (clock 4) created +ℤ estimation))) [
        | inl busy ↦ rw (process_queued, early, spaces, tracked, busy) refl
        | inr free ↦ rw (process_queued, early, spaces, tracked, free) refl
      ]
    ]

-- The pipe is closed once where the goroutine does not block, never where it does, and it does not
-- block where the requester receives.
abbrev pub IsClosed {ℓ κ} : {F : Type ℓ} {D : Type κ} → Bool → Fate F D → Type 0
IsClosed received fate =
    (closes fate ≡ (if blocks fate then 0 else 1)) × ((blocks fate && received) ≡ false)

module _ {ℓ κ μ} {F : Type ℓ} {C : Type κ} {D : Type μ}
    (run : KnnRequest F → SearchSpaces C → Consumed F D) (received : Bool)
    (once : (r : KnnRequest F) (ss : SearchSpaces C)
      → IsClosed received (Fate.consumed (run r ss))) where
  process_with-IsClosed :
      (r : KnnRequest F) (ss : SearchSpaces C) (lt : LatencyTracker) (cancelled : Bool)
      (clock : ℕ → ℕ)
      → IsClosed received (process_with run r ss lt cancelled clock).0
  unfolding process_with
  process_with-IsClosed r ss lt true clock = (refl, refl)
  process_with-IsClosed r ss lt false clock =
      elim (Bool-cases (
        ltb_ℤ r.args.ttl (
          sub_ℕ (clock 0) r.created
          +ℤ (average_std lt (clock 1) (clock 2) (clock 3) (clock 4)).0.0))) [
            | inl late ↦ rw late (refl, refl)
            | inr early ↦ rw early (once r ss)
          ]

  process-IsClosed :
      (latency : Option LatencyTracker) (search_spaces : Option (SearchSpaces C)) (r : KnnRequest F)
      (cancelled : Bool) (clock : ℕ → ℕ)
      → IsClosed received
          (process run
            (record { latency = latency; search_spaces = search_spaces; request = r })
            cancelled
            clock).0
  unfolding process
  process-IsClosed latency none r cancelled clock = (refl, refl)
  process-IsClosed none (some ss) r cancelled clock = (refl, refl)
  process-IsClosed (some lt) (some ss) r cancelled clock =
      process_with-IsClosed r ss lt cancelled clock

  queued-closes :
      (queue_latency : LatencyTracker) (qi : QueueItem F C) (cancelled : Bool) (clock : ℕ → ℕ)
      → let fate = (process_queued run queue_latency qi cancelled clock).0.0 in
        (closes fate ≡ (
          if ltb_ℤ qi.request.args.ttl (sub_ℕ (clock 0) qi.request.created)
          then 0
          else if blocks fate
          then 0
          else 1))
        × ((blocks fate && received) ≡ false)
  unfolding process_queued
  queued-closes queue_latency qi cancelled clock =
      elim (Bool-cases (ltb_ℤ qi.request.args.ttl (sub_ℕ (clock 0) qi.request.created))) [
        | inl late ↦ rw late (refl, refl)
        | inr early ↦
            rw early (
              process-IsClosed qi.latency qi.search_spaces qi.request cancelled
                (λ k. clock (k + 4)))
      ]

module _ {ℓ κ} {F : Type ℓ} {D : Type κ} ⦃f : Float F⦄ (map_func : D → ScoreItem F D × Bool)
    (elapsed : ℕ → ℕ) (signals : ℕ → Bool) (batches : Producer D → List (List (ScoreItem F D)))
    (received : Bool) where
  consume-IsClosed :
      (r : KnnRequest F) (ss : SearchSpaces D)
      → IsClosed received (Fate.consumed (consume map_func r elapsed ss signals batches received))
  unfolding consume
  consume-IsClosed r ss = elim (Bool-cases (request_ok r)) [
    | inr bad ↦ rw bad (refl, refl)
    | inl good ↦ elim (Option-cases (to_scan_chans r.args (elapsed 0) ss)) [
      | inl refused ↦ rw (good, refused) (refl, refl)
      | inr (scans, made) ↦ elim (Bool-cases (is_made (to_pipeline map_func r.args elapsed))) [
        | inr failed ↦ rw (good, made, failed) (refl, refl)
        | inl piped ↦ elim (Bool-cases received) [
          | inl takes ↦ rw (good, made, piped, takes) (refl, refl)
          | inr leaves ↦ rw (good, made, piped, leaves) (refl, refl)
        ]
      ]
    ]
  ]

  -- Whatever the parts of its namespace, the signals and the clock, the pipe of a queued request is
  -- closed once, by its goroutine or by consume, but for two cases: where the request has waited in the
  -- queue for longer than its TTL, the goroutine ends and never closes the pipe; and where the
  -- requester does not receive from the pipe, the goroutine may block for good, and then never
  -- closes it. It does not block where the requester receives.
  pub process_queued-closes :
      (queue_latency : LatencyTracker) (qi : QueueItem F D) (cancelled : Bool) (clock : ℕ → ℕ)
      → let run : KnnRequest F → SearchSpaces D → Consumed F D =
          λ r ss. consume map_func r elapsed ss signals batches received in
        let fate = (process_queued run queue_latency qi cancelled clock).0.0 in
        (closes fate ≡ (
          if ltb_ℤ qi.request.args.ttl (sub_ℕ (clock 0) qi.request.created)
          then 0
          else if blocks fate
          then 0
          else 1))
        × ((blocks fate && received) ≡ false)
  process_queued-closes queue_latency qi cancelled clock =
      queued-closes (λ r ss. consume map_func r elapsed ss signals batches received) received
        consume-IsClosed queue_latency qi cancelled clock
