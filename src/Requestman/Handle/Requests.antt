-- ===== src/Requestman/Handle/Requests.antt =====
-- Handle.KNN and the latency methods of service/requestman/requestman.go. `clock k` is the k-th
-- reading of the clock in a call; a nil tracker panics.
pub mod Admitted
use Prim.Native.String.{String}
use ddrop.Base.{ℕ, Bool, false, not, Option, none, some, if◌then◌else◌}
use ddrop.Base.Int.{ℤ, pos, ltb_ℤ, ◌+ℤ◌}
use ddrop.Float.{Float}
use ddrop.Timex.{LatencyTracker, average, average_std}
use ddrop.Requestman.Containers.{DistancerContainer}
use ddrop.Requestman.Handle.{Handle}
use ddrop.Requestman.Namespaces.{NamespacesItem, get, write}
use ddrop.Requestman.Query.{KnnArgs, args_ok}
use ddrop.Requestman.Query.Consume.{new_knn_request}
use ddrop.Requestman.Queue.{QueueItem}

-- What KNN does with a request: it refuses it, it panics, or it sends an item into the queue. The
-- flag tells whether the requester listens through the monitor.
pub data Admission {ℓ κ} (F : Type ℓ) (C : Type κ) : Type (ℓ ⊔ κ) where
  refused panics : Admission F C
  enqueued : QueueItem F C → Bool → Admission F C

-- The handle with other trackers for the queue and for a namespace. The item of a namespace holds a
-- pointer to its tracker.
abbrev pub with_trackers {ℓ} :
    {D : Type ℓ}
    → Handle D
    → String
    → NamespacesItem D
    → Option LatencyTracker
    → Option LatencyTracker
    → Handle D
with_trackers h k item queue_latency latency =
    let ns = h.knn_namespaces in
    record h {
      queue_latency = queue_latency;
      knn_namespaces = record ns { items = write k (record item { latency = latency }) ns.items };
    }

module _ {ℓ κ} {F : Type ℓ} {D : Type κ} ⦃f : Float F⦄ where
  -- The part of KNN behind the tests of the arguments and of the namespace. Both averages maintain
  -- their trackers.
  unfoldable admit :
      Handle D
      → NamespacesItem D
      → KnnArgs F
      → (ℕ → ℕ)
      → Admission F (DistancerContainer D) × Handle D
  unfolding average_std write
  admit h item args clock = elim h.queue_latency [
    | none ↦ (Admission.panics, h)
    | some queue_latency ↦ elim item.latency [
      | none ↦ (Admission.panics, h)
      | some latency ↦
          let ((avg_queue_wait, _), queue_latency') =
            average_std queue_latency (clock 0) (clock 1) (clock 2) (clock 3) in
          let ((avg_query_wait, _), latency') =
            average_std latency (clock 4) (clock 5) (clock 6) (clock 7) in
          let h' = with_trackers h args.namespace item (some queue_latency') (some latency') in
          if ltb_ℤ args.ttl (avg_queue_wait +ℤ avg_query_wait) then (Admission.refused, h') else (
            Admission.enqueued
                (record {
                  latency = some latency';
                  search_spaces = some item.search_spaces;
                  request = new_knn_request args (clock 8);
                })
                args.monitor,
            h',
          )
    ]
  ]

  unfoldable pub knn :
      Handle D → Bool → KnnArgs F → (ℕ → ℕ) → Admission F (DistancerContainer D) × Handle D
  unfolding admit
  knn h ctx_done args clock =
      if not (args_ok args)
      then (Admission.refused, h)
      else if ctx_done
      then (Admission.refused, h)
      else elim (get h.knn_namespaces args.namespace) [
        | none ↦ (Admission.refused, h)
        | some item ↦ admit h item args clock
      ]

-- The average over a period, and whether the period is within bounds. A nil tracker, which panics, is
-- none.
unfoldable pub knn_queue_latency {ℓ} :
    {D : Type ℓ} → Handle D → ℤ → (ℕ → ℕ) → Option (ℤ × Bool) × Handle D
unfolding average
knn_queue_latency h d clock = elim h.queue_latency [
  | none ↦ (none, h)
  | some lt ↦
      let (out, lt') = average lt d (clock 0) (clock 1) (clock 2) (clock 3) in
      (some out, record h { queue_latency = some lt' })
]

unfoldable pub knn_query_latency {ℓ} :
    {D : Type ℓ} → Handle D → String → ℤ → (ℕ → ℕ) → Option (ℤ × Bool) × Handle D
unfolding average write
knn_query_latency h k d clock = elim (get h.knn_namespaces k) [
  | none ↦ (some (pos 0, false), h)
  | some item ↦ elim item.latency [
    | none ↦ (none, h)
    | some lt ↦
        let (out, lt') = average lt d (clock 0) (clock 1) (clock 2) (clock 3) in
        (some out, with_trackers h k item h.queue_latency (some lt'))
  ]
]
