-- ===== src/Tests/Signals.antt =====
-- Runs of a worker of MergeStage under signals, of the monitor's listener, and of a request from KNN on.
use ddrop.Base.{
  ℕ, ◌+◌, ◌==◌, ◌≡◌, refl, true, false, none, some, List, [], ◌∷◌, ◌++◌, if◌then◌else◌,
}
use ddrop.Base.Int.{pos, pos_part}
use ddrop.Float.{whole_float}
use ddrop.Timex.{LatencyTracker}
use ddrop.Knnc.Items.{ScoreItem}
use ddrop.Knnc.SearchSpaces.Scanning.{Producer}
use ddrop.Knnc.Stages.{MergeStagePartialArgs, fresh_items, merge_worker}
use ddrop.Knnc.Stages.Signals.{
  Selected, merge_selected, cut, batches_of, labelled, merge_selected-cut,
}
use ddrop.Requestman.Containers.{DistancerContainer}
use ddrop.Requestman.Handle.{Handle}
use ddrop.Requestman.Monitor.{TimedLinkedList, KnnMonItemAvg}
use ddrop.Requestman.Monitor.Listener.{Arrival, Listener, register}
use ddrop.Requestman.Monitor.Listener.Forwarding.{
  sent_on, arriving, registrations_of, ending, register-forwards,
}
use ddrop.Requestman.Namespaces.{NamespacesItem}
use ddrop.Requestman.Query.Consume.{new_knn_request}
use ddrop.Requestman.Queue.{QueueItem}
use ddrop.Tests.Requests.{request, spaces_args, tracker_args}
use ddrop.Tests.Spaces.{stage_args}
use ddrop.Tests.Stages.{scored}

abbrev merge_args : MergeStagePartialArgs
merge_args = record { k = pos 2; ascending = true; send_interval = pos 2; stage = stage_args }

abbrev selected : ℕ → Selected
selected i =
    if i == 2 then Selected.is_late else if i == 4 then Selected.sends else Selected.cancels

abbrev five : List (ScoreItem ℕ ℕ)
five = scored ∷ (scored ∷ (scored ∷ (scored ∷ (scored ∷ []))))

merge_selected-cut_example :
    let batches = labelled merge_args (fresh_items merge_args) 1 five in
    (batches_of batches ≡ merge_worker merge_args five)
    × (merge_selected merge_args selected (fresh_items merge_args) 1 five ≡ cut selected batches)
merge_selected-cut_example = merge_selected-cut selected merge_args five

abbrev arrivals : List (Arrival ℕ ℕ)
arrivals =
    record {
      score_items = scored ∷ [];
      now = 4;
      registered_at = 5;
      merged_at = 6;
      stamped_at = 7;
      sends = true;
    }
    ∷ (record {
      score_items = [];
      now = 9;
      registered_at = 10;
      merged_at = 11;
      stamped_at = 12;
      sends = false;
    }
        ∷ [])

abbrev no_averages : TimedLinkedList (KnnMonItemAvg ℕ)
no_averages = record { inner = []; max_chain_link_n = pos 3; min_chain_link_size = pos 15 }

register-forwards_example :
    (r : Listener ℕ ℕ) × (register pos_part
        (λ x. pos 0)
        1
        no_averages
        (pos 2)
        1
        (arriving arrivals ++ ending true)
      ≡ (some r, true))
    × (r.out ≡ sent_on arrivals)
    × (r.registrations ≡ registrations_of pos_part (λ x. pos 0) 1 (pos 2) 1 arrivals)
register-forwards_example =
    register-forwards pos_part (λ x. pos 0) 1 (pos 2) no_averages 1 2 arrivals true refl

abbrev tracker : LatencyTracker
tracker = record { chain = []; cfg = tracker_args }

abbrev entry : NamespacesItem (List ℕ)
entry = record {
  latency = some tracker;
  search_spaces = record {
    spaces = [];
    capacity = 2;
    max_cap = pos 3;
    uniform_dim = 0;
    maintenance_interval = pos 1;
    maintenance_active = true;
  };
}

abbrev handle : Handle (List ℕ)
handle = record {
  knn_namespaces = record {
    items = ("cats", entry) ∷ [];
    new_search_space_args = spaces_args;
    new_latency_tracker_args = tracker_args;
  };
  queue_latency = some tracker;
  queue_buf = pos 1;
  max_concurrent = pos 1;
  monitor_max_chain_link_n = pos 2;
  monitor_min_chain_link_size = pos 10;
}

abbrev clock : ℕ → ℕ
clock k = k

abbrev tracked : ℕ → LatencyTracker
tracked t = record tracker {
  chain = record { created = t; cumulative_latency = pos 0; n_waiters = 0 } ∷ [];
}

abbrev taken : QueueItem ℕ (DistancerContainer (List ℕ))
taken = record {
  latency = some (tracked 5);
  search_spaces = some entry.search_spaces;
  request = new_knn_request request 8;
}

abbrev after : Handle (List ℕ)
after = record handle {
  knn_namespaces = record handle.knn_namespaces {
    items = ("cats", record entry { latency = some (tracked 5) }) ∷ [];
  };
  queue_latency = some (tracked 1);
}

abbrev found : ScoreItem ℕ (DistancerContainer (List ℕ))
found = record {
  distancer = some (record { d = some (3 ∷ []); expires = none });
  score = 3;
  set = true;
}

abbrev found_batches : List (List (ScoreItem ℕ (DistancerContainer (List ℕ))))
found_batches = (found ∷ []) ∷ []

abbrev turn : ℕ → ℕ
turn k = 20 + k

-- What the pipeline delivers for a scan, whatever it starts with.
abbrev delivered :
    Producer (DistancerContainer (List ℕ)) → List (List (ScoreItem ℕ (DistancerContainer (List ℕ))))
delivered p = found_batches
