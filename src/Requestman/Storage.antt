-- ===== src/Requestman/Storage.antt =====
-- What the operations on namespaces do to every namespace.
pub mod Keys
unfoldable pub use Keys.{among}
use ddrop.Requestman.Storage.Keys.{find-write, find-remove_all, find_all_keys, key-among}
use text.Mathlib.Text.{◌==◌ as str_eq}
use text.Mathlib.TextEquality.{eq_iff}
use Prim.Native.String.{String}
use mathlib.Core.Option.{some-injective}
use ddrop.Base.{
  ℕ, ◌+◌, ◌≡◌, refl, sym, ap, ◌∙◌, inl, inr, ◌⊎◌, Bool, true, false, ◌||◌, Option, none, some, List,
  [], ◌∷◌, map, arith, if◌then◌else◌, Bool-cases, Option-cases, subst, All, length,
}
use ddrop.Knnc.SearchSpaces
use ddrop.Knnc.SearchSpaces.{SearchSpaces, NewSearchSpacesArgs, sum_len}
use ddrop.Knnc.SearchSpaces.Additions.{Holds, IsValid, add_searchable-Result}
use ddrop.Requestman.Containers.{DistancerContainer, containers, containers-IsStable}
use ddrop.Requestman.Namespaces.{
  Namespaces, NamespacesItem, find, write, remove, remove_all, get, key, keys, del, item_for,
  put_into, put,
}

module _ {ℓ} {D : Type ℓ} where
  get-del_keys :
      (ns : Namespaces D) (k : String) (ks : List String) (j : String)
      → get (del ns (k ∷ ks)) j ≡ (if among (k ∷ ks) j then none else get ns j)
  unfolding get del
  get-del_keys ns k ks j = find-remove_all (k ∷ ks) j ns.items

  -- del with keys deletes just the namespaces of these names, without keys it deletes all, and key
  -- tells whether a name is among the keys.
  pub get-del :
      (ns : Namespaces D) (k : String) (ks : List String) (j : String)
      → (get (del ns []) j ≡ none)
        × (get (del ns (k ∷ ks)) j ≡ (if among (k ∷ ks) j then none else get ns j))
        × (key ns j ≡ among (keys ns) j)
  unfolding get del key keys
  get-del ns k ks j = (
    find-remove_all (map (λ p. p.0) ns.items) j ns.items ∙ find_all_keys j ns.items,
    get-del_keys ns k ks j,
    key-among j ns.items,
  )

module _ {ℓ} {D : Type ℓ} (dim : D → ℕ) where
  -- Every namespace has a valid collection.
  abbrev pub AllValid : Namespaces D → Type ℓ
  AllValid ns =
      (j : String) (item : NamespacesItem D)
      → get ns j ≡ some item
      → IsValid (containers dim) item.search_spaces

  -- The number of items of a namespace, which is 0 where there is no such namespace.
  abbrev pub total : Namespaces D → String → ℕ
  total ns j = elim (get ns j) [ none ↦ 0 | some item ↦ (SearchSpaces.len item.search_spaces).1 ]

  empty-IsValid :
      (ss : SearchSpaces (DistancerContainer D)) → ss.spaces ≡ [] → IsValid (containers dim) ss
  empty-IsValid ss e = record {
    bounded = omega (arith, ap length e);
    each = subst (All (Holds (containers dim) ss.uniform_dim)) (sym e) tt;
  }

  new-empty :
      (args : NewSearchSpacesArgs) (ss : SearchSpaces (DistancerContainer D))
      → SearchSpaces.new_search_spaces args ≡ some ss
      → ss.spaces ≡ []
  unfolding SearchSpaces.new_search_spaces
  new-empty args ss e = ground arith

  -- The collection that an addition to a namespace starts from.
  abbrev Start : Namespaces D → String → NamespacesItem D → Type ℓ
  Start ns k item =
      IsValid (containers dim) item.search_spaces
      × (total ns k ≡ sum_len 0 item.search_spaces.spaces)

  item_for-found :
      (ns : Namespaces D) (k : String) (old : NamespacesItem D)
      → find k ns.items ≡ some old
      → (item_for ns k ≡ some old) × (total ns k ≡ sum_len 0 old.search_spaces.spaces)
  unfolding item_for get SearchSpaces.len
  item_for-found ns k old found = (rw (found, item_for) refl, rw (found, total) refl)

  item_for-fresh :
      (ns : Namespaces D) (k : String) (item : NamespacesItem D)
      → find k ns.items ≡ none
      → item_for ns k ≡ some item
      → (item.search_spaces.spaces ≡ []) × (total ns k ≡ 0)
  unfolding item_for get
  item_for-fresh ns k item fresh e =
      elim (Option-cases
        (SearchSpaces.new_search_spaces {C = DistancerContainer D} ns.new_search_space_args)) [
          | inl bad ↦ absurd (ground arith)
          | inr (ss, made) ↦
              (ground (arith, new-empty ns.new_search_space_args ss made), rw (fresh, total) refl)
        ]

  item_for-Start :
      (ns : Namespaces D) (k : String) (item : NamespacesItem D)
      → AllValid ns
      → item_for ns k ≡ some item
      → Start ns k item
  unfolding get
  item_for-Start ns k item v e = elim (Option-cases (find k ns.items)) [
    | inl fresh ↦
        let (empty, zero_total) = item_for-fresh ns k item fresh e in
        (
          empty-IsValid item.search_spaces empty,
          zero_total ∙ sym (ap (sum_len 0) empty ∙ unfold sum_len in refl),
        )
    | inr (old, found) ↦
        let (same, count) = item_for-found ns k old found in
        subst (Start ns k) (some-injective _ _ (sym same ∙ e)) (v k old found, count)
  ]

  -- What put leaves: valid collections, the other namespaces as they were, and one item more in the
  -- namespace where it succeeds, and no item more where it fails.
  abbrev pub Stored : Namespaces D → String → Namespaces D × Bool → Type ℓ
  Stored ns k r =
      AllValid r.0
      × ((j : String) → get r.0 j ≡ (if str_eq k j then get r.0 j else get ns j))
      × (total r.0 k ≡ total ns k + (if r.1 then 1 else 0))

  unchanged : (ns : Namespaces D) (k : String) → AllValid ns → Stored ns k (ns, false)
  unchanged ns k v = (v, λ j. ground arith, omega arith)

  abbrev with_item : Namespaces D → String → NamespacesItem D → Namespaces D
  with_item ns k item = record ns { items = write k item ns.items }

  get-with_item :
      (ns : Namespaces D) (k j : String) (item : NamespacesItem D)
      → get (with_item ns k item) j ≡ (if str_eq k j then some item else get ns j)
  unfolding get
  get-with_item ns k j item = find-write k j item ns.items

  with_item-AllValid :
      (ns : Namespaces D) (k : String) (item : NamespacesItem D)
      → AllValid ns
      → IsValid (containers dim) item.search_spaces
      → AllValid (with_item ns k item)
  with_item-AllValid ns k item v valid j found e = elim (Bool-cases (str_eq k j)) [
    | inl same ↦
        let is : item ≡ found = ground (arith, get-with_item ns k j item) in
        subst (λ x. IsValid (containers dim) x.search_spaces) is valid
    | inr other ↦ v j found (ground (arith, get-with_item ns k j item))
  ]

  total-with_item :
      (ns : Namespaces D) (k : String) (item : NamespacesItem D)
      → total (with_item ns k item) k ≡ sum_len 0 item.search_spaces.spaces
  unfolding SearchSpaces.len
  total-with_item ns k item =
      let e : get (with_item ns k item) k ≡ some item =
        ground (arith, get-with_item ns k k item, eq_iff k k) in
      rw (e, total) refl

  put_into-Stored :
      (ns : Namespaces D) (k : String) (d : DistancerContainer D) (clock : ℕ → ℕ)
      (o : Option (NamespacesItem D))
      → AllValid ns
      → ((item : NamespacesItem D) → o ≡ some item → Start ns k item)
      → Stored ns k (put_into dim ns k d clock o)
  unfolding put_into
  put_into-Stored ns k d clock none v start = unchanged ns k v
  put_into-Stored ns k d clock (some item) v start =
      let (valid, count) = start item refl in
      let r = SearchSpaces.add_searchable (containers dim) item.search_spaces (some d) clock in
      let (kept, outcome) =
        add_searchable-Result (containers dim) item.search_spaces (some d) clock
          (containers-IsStable dim) valid in
      let item' = record item { search_spaces = r.0 } in
      (
        with_item-AllValid ns k item' v kept,
        λ j. ground (arith, get-with_item ns k j item'),
        elim outcome [
          | inl (e, same) ↦
              rw e (omega (arith, total-with_item ns k item', ap (λ s. sum_len 0 s.spaces) same))
          | inr (e, more) ↦ rw e (omega (arith, total-with_item ns k item'))
        ],
      )

  put-cases :
      (ns : Namespaces D) (k : String) (d : DistancerContainer D) (clock : ℕ → ℕ)
      → (put dim ns k d clock ≡ (ns, false))
        ⊎ (put dim ns k d clock ≡ put_into dim ns k d clock (item_for ns k))
  unfolding put
  put-cases ns k d clock =
      let done = put_into dim ns k d clock (item_for ns k) in
      elim d.d
        as (λ o.
          let r : Namespaces D × Bool = elim o [ none ↦ (ns, false) | some x ↦ done ] in
          (r ≡ (ns, false)) ⊎ (r ≡ done)) [ none ↦ inl refl | some x ↦ inr refl ]

  -- put into namespaces with valid collections keeps all collections valid, leaves the namespaces of
  -- other names as they are, and adds one item to the total of the named one where it returns true
  -- and none where it returns false.
  pub put-Stored :
      (ns : Namespaces D) (k : String) (d : DistancerContainer D) (clock : ℕ → ℕ)
      → AllValid ns
      → Stored ns k (put dim ns k d clock)
  put-Stored ns k d clock v = elim (put-cases ns k d clock) [
    | inl e ↦ subst (Stored ns k) (sym e) (unchanged ns k v)
    | inr e ↦
        subst (Stored ns k) (sym e)
          (put_into-Stored ns k d clock (item_for ns k) v (λ item. item_for-Start ns k item v))
  ]
