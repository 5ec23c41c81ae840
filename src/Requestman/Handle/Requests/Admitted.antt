-- ===== src/Requestman/Handle/Requests/Admitted.antt =====
-- What becomes of a request that Handle.KNN takes, from its admission through the queue to its answer.
use ddrop.Base.{ℕ, ◌≡◌, Bool, true, false, Option, none, some, List, if◌then◌else◌}
use ddrop.Base.Int.{ltb_ℤ, sub_ℕ, ◌+ℤ◌}
use ddrop.Float.{Float}
use ddrop.Timex.{LatencyTracker, average_std}
use ddrop.Knnc.Items.{ScoreItem}
use ddrop.Knnc.SearchSpaces.{SearchSpaces}
use ddrop.Knnc.SearchSpaces.Scanning.{Producer}
use ddrop.Requestman.Containers.{DistancerContainer}
use ddrop.Requestman.Handle.{Handle}
use ddrop.Requestman.Namespaces.{NamespacesItem, get}
use ddrop.Requestman.Query.{KnnArgs, args_ok}
use ddrop.Requestman.Query.Consume.{KnnRequest, Consumed, new_knn_request, consume}
use ddrop.Requestman.Queue.{QueueItem, Fate, process_queued}
use ddrop.Requestman.Handle.Requests.{Admission}

-- A tracker of a namespace behind the average of KNN.
abbrev pub averaged : LatencyTracker → (ℕ → ℕ) → LatencyTracker
averaged latency clock = (average_std latency (clock 4) (clock 5) (clock 6) (clock 7)).1

module _ {ℓ κ} {F : Type ℓ} {D : Type κ} ⦃f : Float F⦄ where
  -- What an item of the queue holds: the collection and the tracker of its namespace, as the average
  -- that KNN computes leaves the tracker.
  record IsAdmitted (h : Handle D) (args : KnnArgs F) (clock : ℕ → ℕ)
      (item : QueueItem F (DistancerContainer D)) : Type (ℓ ⊔ κ) where
    pub entry : NamespacesItem D
    pub latency : LatencyTracker
    pub known : get h.knn_namespaces args.namespace ≡ some entry
    pub valid : args_ok args ≡ true
    pub spaces : item.search_spaces ≡ some entry.search_spaces
    pub has_latency : entry.latency ≡ some latency
    pub tracked : item.latency ≡ some (averaged latency clock)
    pub request : item.request ≡ new_knn_request args (clock 8)

  abbrev item_of : Admission F (DistancerContainer D) → Option (QueueItem F (DistancerContainer D))
  item_of Admission.refused = none
  item_of Admission.panics = none
  item_of (Admission.enqueued item monitored) = some item

  module _ (map_func : DistancerContainer D → ScoreItem F (DistancerContainer D) × Bool)
      (elapsed : ℕ → ℕ)
      (batches : Producer (DistancerContainer D) → List (List (ScoreItem F (DistancerContainer D))))
      (received : Bool) (queue_latency : LatencyTracker) (turn : ℕ → ℕ) where
    -- What consume does with a request that nobody cancels.
    abbrev pub answer_of :
        KnnRequest F → SearchSpaces (DistancerContainer D) → Consumed F (DistancerContainer D)
    answer_of request ss = consume map_func request elapsed ss (λ k. false) batches received

    -- The fate of an item in the queue.
    abbrev pub fate_of : QueueItem F (DistancerContainer D) → Fate F (DistancerContainer D)
    fate_of item = (process_queued answer_of queue_latency item false turn).0.0

    -- What is due to a request over some search spaces, by a tracker of its namespace.
    abbrev due :
        LatencyTracker
        → SearchSpaces (DistancerContainer D)
        → KnnRequest F
        → Fate F (DistancerContainer D)
    due tracker ss request =
        let ((estimation, _), _) = average_std tracker (turn 5) (turn 6) (turn 7) (turn 8) in
        let ttl = request.args.ttl in
        if ltb_ℤ ttl (sub_ℕ (turn 0) request.created)
        then Fate.left_open
        else if ltb_ℤ ttl (sub_ℕ (turn 4) request.created +ℤ estimation)
        then Fate.refused
        else Fate.consumed (answer_of request ss)
