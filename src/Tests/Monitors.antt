-- ===== src/Tests/Monitors.antt =====
-- Runs of the monitor, and of the server's AddData.
use ddrop.Base.{ℕ, ◌+◌, ◌≡◌, refl, inl, true, false, some, none, List, [], ◌∷◌, length}
use ddrop.Base.Int.{pos, pos_part}
use ddrop.Float.{whole_float}
use ddrop.Mathx.SafeVec.{SafeVec}
use ddrop.Requestman.Handle.{Handle}
use ddrop.Requestman.Handle.Shutdown.{told}
use ddrop.Requestman.Monitor.{Timed, TimedLinkedList, KnnMonItemAvg}
use ddrop.Requestman.Namespaces.{get, find}
use ddrop.Requestman.Monitor.Averages.{KnnMonItem, no_average, register_mon_item}
use ddrop.Requestman.Monitor.Averages.Counting.{AllCounted, count}
use ddrop.Requestman.Monitor.Averages.Registering.{staying, register_mon_item-n}
use ddrop.Requestman.Storage.{AllValid}
use ddrop.Ops.Server.{AddDataArgs, dim_of, add_data_loop}
use ddrop.Ops.Server.Adding.{accepted, add_data_loop-told}
use ddrop.Tests.Requests.{spaces_args, tracker_args}

abbrev link : ℕ → ℕ → Timed (KnnMonItemAvg ℕ)
link t n = record {
  created = t;
  inner = record no_average { is_set = true; created = t; span = pos 5; n = pos n };
}

abbrev averages : TimedLinkedList (KnnMonItemAvg ℕ)
averages = record {
  inner = link 30 2 ∷ (link 20 3 ∷ []);
  max_chain_link_n = pos 3;
  min_chain_link_size = pos 15;
}

abbrev registered : KnnMonItem ℕ
registered = record { latency = pos 4; avg_score = 2; satisfaction = 1 }

averages_counted : AllCounted averages.inner
averages_counted = ((refl, inl refl), ((refl, inl refl), tt))

register_mon_item-n_example :
    (r : TimedLinkedList (KnnMonItemAvg ℕ)) × (register_mon_item pos_part
        (λ x. pos 0)
        1
        averages
        registered
        40
        41
      ≡ some r)
    × AllCounted r.inner
    × (count r.inner ≡ count (staying 2 (pos 15) 40 averages.inner) + 1)
register_mon_item-n_example =
    register_mon_item-n pos_part (λ x. pos 0) 1 averages registered 40 41 2 refl averages_counted

abbrev handle : Handle (SafeVec ℕ)
handle = record {
  knn_namespaces = record {
    items = [];
    new_search_space_args = spaces_args;
    new_latency_tracker_args = tracker_args;
  };
  queue_latency = none;
  queue_buf = pos 1;
  max_concurrent = pos 1;
  monitor_max_chain_link_n = pos 2;
  monitor_min_chain_link_size = pos 10;
}

handle-AllValid : AllValid dim_of handle.knn_namespaces
unfolding get find
handle-AllValid j item e = cc

abbrev cat : List ℕ → AddDataArgs ℕ
cat v = record { namespace = "cats"; vec = v; content = []; expires = none }

abbrev payload : List (AddDataArgs ℕ)
payload = cat (1 ∷ (2 ∷ [])) ∷ (cat (1 ∷ []) ∷ [])

add_data_loop-told_example :
    let r = add_data_loop handle (λ n. false) (λ n k. k) payload in
    AllValid dim_of r.0.knn_namespaces
    × (length r.1 ≡ 2)
    × (told r.0 "cats" ≡ told handle "cats" + accepted "cats" payload r.1)
add_data_loop-told_example =
    add_data_loop-told handle (λ n. false) (λ n k. k) payload "cats" handle-AllValid
