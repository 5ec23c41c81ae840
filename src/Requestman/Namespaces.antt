-- ===== src/Requestman/Namespaces.antt =====
-- service/requestman/namespaces.go: a map from names to collections of search spaces. The map is an
-- association list with each key once; its iteration order, which Go leaves open, is the list's.
use text.Mathlib.Text.{◌==◌ as str_eq}
use Prim.Native.String.{String}
use ddrop.Base.{ℕ, Bool, true, false, Option, none, some, List, [], ◌∷◌, map, if◌then◌else◌}
use ddrop.Timex
use ddrop.Timex.{LatencyTracker, NewLatencyTrackerArgs}
use ddrop.Knnc.SearchSpaces
use ddrop.Knnc.SearchSpaces.{SearchSpaces, NewSearchSpacesArgs}
use ddrop.Requestman.Containers.{DistancerContainer, containers}

-- A nil tracker, which a failed construction leaves, is `none`.
pub record NamespacesItem {ℓ} (D : Type ℓ) : Type ℓ where
  pub latency : Option LatencyTracker
  pub search_spaces : SearchSpaces (DistancerContainer D)

pub record Namespaces {ℓ} (D : Type ℓ) : Type ℓ where
  pub items : List (String × NamespacesItem D)
  pub new_search_space_args : NewSearchSpacesArgs
  pub new_latency_tracker_args : NewLatencyTrackerArgs

module _ {ℓ} {V : Type ℓ} where
  -- Reading, writing and deleting a key of a map.
  unfoldable pub find : String → List (String × V) → Option V
  find k [] = none
  find k ((j, v) ∷ m) = if str_eq j k then some v else find k m

  unfoldable pub write : String → V → List (String × V) → List (String × V)
  write k v [] = (k, v) ∷ []
  write k v ((j, w) ∷ m) = if str_eq j k then (k, v) ∷ m else (j, w) ∷ write k v m

  unfoldable pub remove : String → List (String × V) → List (String × V)
  remove k [] = []
  remove k ((j, w) ∷ m) = let rest = remove k m in if str_eq j k then rest else (j, w) ∷ rest

  unfoldable pub remove_all : List String → List (String × V) → List (String × V)
  remove_all [] m = m
  remove_all (k ∷ ks) m = remove_all ks (remove k m)

module _ {ℓ} {D : Type ℓ} where
  unfoldable pub get : Namespaces D → String → Option (NamespacesItem D)
  get ns k = find k ns.items

  unfoldable pub key : Namespaces D → String → Bool
  key ns k = elim (find k ns.items) [ none ↦ false | some item ↦ true ]

  unfoldable pub keys : Namespaces D → List String
  keys ns = map (λ p. p.0) ns.items

  unfoldable pub del : Namespaces D → List String → Namespaces D
  del ns [] = record ns { items = remove_all (keys ns) ns.items }
  del ns (k ∷ ks) = record ns { items = remove_all (k ∷ ks) ns.items }

  -- The item of a namespace, made where there is none; `none` is the failure to make it. The loop of
  -- StartMaintenance is started on a new collection.
  unfoldable pub item_for : Namespaces D → String → Option (NamespacesItem D)
  item_for ns k = elim (find k ns.items) [
    | some item ↦ some item
    | none ↦
        elim (SearchSpaces.new_search_spaces {C = DistancerContainer D} ns.new_search_space_args) [
          | none ↦ none
          | some spaces ↦ some (record {
            latency = Timex.new_latency_tracker ns.new_latency_tracker_args;
            search_spaces = record spaces { maintenance_active = true };
          })
        ]
  ]

  module _ (dim : D → ℕ) where
    unfoldable pub put_into :
        Namespaces D
        → String
        → DistancerContainer D
        → (ℕ → ℕ)
        → Option (NamespacesItem D)
        → Namespaces D × Bool
    put_into ns k d clock none = (ns, false)
    put_into ns k d clock (some item) =
        let (spaces, ok) =
          SearchSpaces.add_searchable (containers dim) item.search_spaces (some d) clock in
        (record ns { items = write k (record item { search_spaces = spaces }) ns.items }, ok)

    unfoldable pub put :
        Namespaces D → String → DistancerContainer D → (ℕ → ℕ) → Namespaces D × Bool
    put ns k d clock = elim d.d [
      | none ↦ (ns, false)
      | some x ↦ put_into ns k d clock (item_for ns k)
    ]
