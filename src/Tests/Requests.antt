-- ===== src/Tests/Requests.antt =====
-- Runs of the namespaces, of the loop of consume and of the merge of answers.
use Prim.Native.String.{String}
use ddrop.Base.{
  items_of, ◌+◌, ◌&&◌, not, ℕ, ◌≡◌, refl, true, false, none, some, List, [], ◌∷◌, length,
  if◌then◌else◌,
}
use ddrop.Base.Int.{pos}
use ddrop.Float.{whole_float, ℕ-IsStrict}
use ddrop.Ranking.TopK.{TopK}
use ddrop.Knnc.Items.{ScoreItem}
use ddrop.Knnc.SearchSpaces.{NewSearchSpacesArgs}
use ddrop.Timex.{NewLatencyTrackerArgs}
use ddrop.Requestman.Containers.{DistancerContainer}
use ddrop.Requestman.Namespaces.{Namespaces, NamespacesItem, get, find, put}
use ddrop.Requestman.Storage.{Stored, AllValid, put-Stored}
use ddrop.Requestman.Handle.{Handle, add_data, s_space_namespace}
use ddrop.Requestman.Handle.Shutdown.{told, add_data-told}
use ddrop.Requestman.Query.{KnnArgs, KnnMethod, empty_result, consume_batches}
use ddrop.Requestman.Query.Results.{Answer, consume_batches-Answer}
use ddrop.Ops.Answers.{KnnResp, ClientResult, SortItem, Found, sort_slot, extract, knn_eagerx}
use ddrop.Ops.Merge.{all_offers, knn_eagerx-TopK}

abbrev Vec : Type 0
Vec = List ℕ

abbrev pub spaces_args : NewSearchSpacesArgs
spaces_args = record { max_cap = pos 3; max_n = pos 2; maintenance_interval = pos 1 }

abbrev pub tracker_args : NewLatencyTrackerArgs
tracker_args = record {
  max_chain_link_n = pos 2;
  min_chain_link_size = pos 10;
  standard_period = pos 20;
}

abbrev empty_item : NamespacesItem Vec
empty_item = record {
  latency = none;
  search_spaces = record {
    spaces = [];
    capacity = 2;
    max_cap = pos 3;
    uniform_dim = 0;
    maintenance_interval = pos 1;
    maintenance_active = true;
  };
}

abbrev two_names : Namespaces Vec
two_names = record {
  items = ("cats", empty_item) ∷ (("dogs", empty_item) ∷ []);
  new_search_space_args = spaces_args;
  new_latency_tracker_args = tracker_args;
}

abbrev no_names : Namespaces Vec
no_names = record {
  items = [];
  new_search_space_args = spaces_args;
  new_latency_tracker_args = tracker_args;
}

no_names-AllValid : AllValid length no_names
unfolding get find
no_names-AllValid j item e = cc

abbrev one_two : DistancerContainer Vec
one_two = record { d = some (1 ∷ (2 ∷ [])); expires = none }

put-Stored_example : Stored length no_names "cats" (put length no_names "cats" one_two (λ k. k))
put-Stored_example = put-Stored length no_names "cats" one_two (λ k. k) no_names-AllValid

abbrev pub request : KnnArgs ℕ
request = record {
  namespace = "cats";
  priority = pos 1;
  query_vec = 1 ∷ (2 ∷ []);
  knn_method = KnnMethod.euclidean_method;
  ascending = true;
  k = pos 2;
  extent = 1;
  accept = 3;
  reject = 90;
  ttl = pos 100;
  monitor = false;
}

abbrev scored : ℕ → ScoreItem ℕ Vec
scored n = record { distancer = some (n ∷ []); score = n; set = true }

abbrev batches : List (List (ScoreItem ℕ Vec))
batches = (scored 7 ∷ (scored 2 ∷ [])) ∷ ((scored 1 ∷ (scored 5 ∷ [])) ∷ [])

consume_batches-Answer_example :
    Answer request (items_of batches) (consume_batches request (empty_result request) batches)
consume_batches-Answer_example =
    consume_batches-Answer ℕ-IsStrict request batches (refl, (refl, (refl, (refl, tt))))

abbrev answer : String → ℕ → ClientResult (KnnResp ℕ)
answer addr n = record {
  remote_addr = addr;
  net_failed = false;
  payload = record { knn = some (record { vec = n ∷ []; score = n } ∷ []); ok = true };
  network_latency = pos 3;
}

abbrev answers : List (ClientResult (KnnResp ℕ))
answers = answer ":3000" 8 ∷ (answer ":3001" 5 ∷ [])

knn_eagerx-TopK_example :
    (kept : List (SortItem ℕ (Found ℕ))) × TopK sort_slot true 1 (all_offers answers) kept
    × (knn_eagerx (pos 1) true answers ≡ some (extract kept))
knn_eagerx-TopK_example = knn_eagerx-TopK ℕ-IsStrict (pos 1) true answers

abbrev no_data : Handle Vec
no_data = record {
  knn_namespaces = no_names;
  queue_latency = none;
  queue_buf = pos 1;
  max_concurrent = pos 1;
  monitor_max_chain_link_n = pos 2;
  monitor_min_chain_link_size = pos 10;
}

abbrev two_kinds : Handle Vec
two_kinds = record no_data { knn_namespaces = two_names }

add_data-told_example :
    let r = add_data length no_data false "cats" one_two (λ k. k) in
    AllValid length r.0.knn_namespaces
    × (told r.0 "cats" ≡ told no_data "cats" + (if r.1 then 1 else 0))
    × ((r.1 && not (s_space_namespace r.0 "cats")) ≡ false)
    × ((r.1 && false) ≡ false)
add_data-told_example = add_data-told length no_data false "cats" one_two (λ k. k) no_names-AllValid
