-- ===== src/Requestman/Handle.antt =====
-- Handle of service/requestman/requestman.go, as far as it stores data: its construction, AddData,
-- the end of maintenance and what the info methods tell of the search spaces.
pub mod Requests
pub mod Shutdown
use Prim.Native.String.{String}
use ddrop.Base.{ℕ, Bool, true, false, not, ◌&&◌, Option, none, some, List, [], ◌∷◌, if◌then◌else◌}
use ddrop.Base.Int.{ℤ, pos, ltb_ℤ, leb_ℤ}
use ddrop.Timex
use ddrop.Timex.{LatencyTracker, NewLatencyTrackerArgs}
use ddrop.Knnc.SearchSpaces
use ddrop.Knnc.SearchSpaces.{NewSearchSpacesArgs}
use ddrop.Requestman.Containers.{DistancerContainer}
use ddrop.Requestman.Namespaces
use ddrop.Requestman.Namespaces.{Namespaces, NamespacesItem, get, key, keys}

-- Whether there is a context is all that the construction reads of it.
pub record NewHandleArgs : Type 0 where
  pub new_search_space_args : NewSearchSpacesArgs
  pub new_latency_tracker_args : NewLatencyTrackerArgs
  pub knn_queue_buf : ℤ
  pub knn_queue_max_concurrent : ℤ
  pub ctx_made : Bool
  pub new_knn_monitor_args : NewLatencyTrackerArgs

unfoldable pub args_ok : NewHandleArgs → Bool
args_ok args =
    SearchSpaces.args_ok args.new_search_space_args
    && Timex.args_ok args.new_latency_tracker_args
    && leb_ℤ (pos 0) args.knn_queue_buf
    && ltb_ℤ (pos 0) args.knn_queue_max_concurrent
    && args.ctx_made
    && Timex.args_ok args.new_knn_monitor_args

-- The queue and the monitor by what the construction sets of them.
pub record Handle {ℓ} (D : Type ℓ) : Type ℓ where
  pub knn_namespaces : Namespaces D
  pub queue_latency : Option LatencyTracker
  pub queue_buf : ℤ
  pub max_concurrent : ℤ
  pub monitor_max_chain_link_n : ℤ
  pub monitor_min_chain_link_size : ℤ

module _ {ℓ} {D : Type ℓ} where
  unfoldable pub new_handle : NewHandleArgs → Option (Handle D)
  unfolding args_ok
  new_handle args =
      if not (args_ok args)
      then none
      else some (record {
        knn_namespaces = record {
          items = [];
          new_search_space_args = args.new_search_space_args;
          new_latency_tracker_args = args.new_latency_tracker_args;
        };
        queue_latency = Timex.new_latency_tracker args.new_latency_tracker_args;
        queue_buf = args.knn_queue_buf;
        max_concurrent = args.knn_queue_max_concurrent;
        monitor_max_chain_link_n = args.new_knn_monitor_args.max_chain_link_n;
        monitor_min_chain_link_size = args.new_knn_monitor_args.min_chain_link_size;
      })

  abbrev pub stop_item : NamespacesItem D → NamespacesItem D
  stop_item item = record item {
    search_spaces = record item.search_spaces { maintenance_active = false };
  }

  pub stop_items : List (String × NamespacesItem D) → List (String × NamespacesItem D)
  stop_items [] = []
  stop_items ((k, item) ∷ items) = (k, stop_item item) ∷ stop_items items

  -- waitThenQuit, once the context is done.
  pub wait_then_quit : Handle D → Handle D
  unfolding stop_items
  wait_then_quit h =
      let ns = h.knn_namespaces in
      record h { knn_namespaces = record ns { items = stop_items ns.items } }

  unfoldable pub add_data :
      (D → ℕ) → Handle D → Bool → String → DistancerContainer D → (ℕ → ℕ) → Handle D × Bool
  add_data dim h ctx_done ns d clock =
      let (namespaces, ok) = Namespaces.put dim h.knn_namespaces ns d clock in
      if ctx_done then (h, false) else (record h { knn_namespaces = namespaces }, ok)

  unfoldable pub s_space_namespaces : Handle D → List String
  s_space_namespaces h = keys h.knn_namespaces

  pub s_space_namespace : Handle D → String → Bool
  s_space_namespace h k = key h.knn_namespaces k

  pub s_space_dim : Handle D → String → ℕ × Bool
  s_space_dim h k = elim (get h.knn_namespaces k) [
    | none ↦ (0, false)
    | some item ↦ (SearchSpaces.dim item.search_spaces, true)
  ]

  unfoldable pub s_space_len : Handle D → String → (ℕ × ℕ) × Bool
  s_space_len h k = elim (get h.knn_namespaces k) [
    | none ↦ ((0, 0), false)
    | some item ↦ (SearchSpaces.len item.search_spaces, true)
  ]

  pub s_space_cap : Handle D → String → ℕ × Bool
  s_space_cap h k = elim (get h.knn_namespaces k) [
    | none ↦ (0, false)
    | some item ↦ (SearchSpaces.cap item.search_spaces, true)
  ]
