-- ===== src/Knnc/SearchSpace/Invariant.antt =====
-- The invariant of a search space: its length within its capacity, its vectors of one dimension.
use mathlib.Core.Option.{some-injective}
use ddrop.Base.{
  ℕ, zero, suc, ◌+◌, ◌≤◌, ◌<◌, ◌≡◌, refl, sym, inl, inr, ◌⊎◌, Bool, true, false, Option, none, some,
  List, [], ◌∷◌, ◌++◌, arith, length, length-append, All, All-append, leb, ◌==◌, Bool-cases,
  Option-cases, subst, ◌≢◌,
}
use ddrop.Base.Int.{ℤ, pos, negsuc}
use ddrop.Knnc.Items.{Container, IsStable}
use ddrop.Knnc.SearchSpace.{
  SearchSpace, new_search_space, add_searchable, add_valid, clean, clean_items,
}

module _ {ℓ κ} {C : Type ℓ} {D : Type κ} (i : Container C D) where
  -- Whatever the container gives has that dimension.
  abbrev HasDim : ℕ → C → Type κ
  HasDim n c = (t : ℕ) (d : D) → i.distancer t c ≡ some d → i.dim d ≡ n

  pub record IsValid (ss : SearchSpace C) : Type (ℓ ⊔ κ) where
    pub has_room : 0 < ss.capacity
    pub bounded : length ss.items ≤ ss.capacity
    pub uniform : All (HasDim ss.vec_dim) ss.items

  new_search_space-IsValid :
      (n : ℤ) {ss : SearchSpace C} → new_search_space n ≡ some ss → IsValid ss
  unfolding new_search_space
  new_search_space-IsValid (pos zero) e = cc
  new_search_space-IsValid (pos (suc n)) {ss} e =
      subst IsValid (some-injective _ _ e)
        (record { has_room = omega arith; bounded = omega arith; uniform = tt })
  new_search_space-IsValid (negsuc n) e = cc

  abbrev pub extended : SearchSpace C → C → ℕ → SearchSpace C
  extended ss dc n = record ss { items = ss.items ++ dc ∷ []; vec_dim = n }

  -- What an addition comes to: nothing, where the space is full or is not empty and has another
  -- dimension; otherwise the container at the end of the items.
  abbrev pub Added : SearchSpace C → C → D → SearchSpace C × Bool → Type ℓ
  Added ss dc d r =
      ((r ≡ (ss, false))
        × ((ss.capacity ≤ length ss.items) ⊎ ((0 < length ss.items) × (i.dim d ≢ ss.vec_dim))))
      ⊎ ((r ≡ (extended ss dc (i.dim d), true))
          × (length ss.items < ss.capacity)
          × ((length ss.items ≡ 0) ⊎ (i.dim d ≡ ss.vec_dim)))

  add_valid-Added : (ss : SearchSpace C) (dc : C) (d : D) → Added ss dc d (add_valid i ss dc d)
  unfolding add_valid
  add_valid-Added ss dc d = elim (Bool-cases (leb ss.capacity (length ss.items))) [
    | inl full ↦ inl (ground arith, inl (ground arith))
    | inr room ↦ elim (Bool-cases (i.dim d == ss.vec_dim)) [
      | inl same ↦ elim (Bool-cases (length ss.items == 0)) [
        | inl empty ↦ inr (ground arith, ground arith, inl (ground arith))
        | inr filled ↦ inr (ground arith, ground arith, inr (ground arith))
      ]
      | inr other ↦ elim (Bool-cases (length ss.items == 0)) [
        | inl empty ↦ inr (ground arith, ground arith, inl (ground arith))
        | inr filled ↦ inl (ground arith, inr (ground arith, λ e. ground arith))
      ]
    ]
  ]

  All-of_empty : (n : ℕ) (items : List C) → length items ≡ 0 → All (HasDim n) items
  All-of_empty n [] e = tt
  All-of_empty n (c ∷ cs) e = absurd (omega arith)

  fits-All :
      (ss : SearchSpace C) (n : ℕ)
      → All (HasDim ss.vec_dim) ss.items
      → (length ss.items ≡ 0) ⊎ (n ≡ ss.vec_dim)
      → All (HasDim n) ss.items
  fits-All ss n h (inl e) = All-of_empty n ss.items e
  fits-All ss n h (inr e) = subst (λ m. All (HasDim m) ss.items) (sym e) h

  extended-IsValid :
      (ss : SearchSpace C) (dc : C) (n : ℕ)
      → HasDim n dc
      → IsValid ss
      → length ss.items < ss.capacity
      → (length ss.items ≡ 0) ⊎ (n ≡ ss.vec_dim)
      → IsValid (extended ss dc n)
  extended-IsValid ss dc n h v room fits = record {
    has_room = v.has_room;
    bounded = omega (arith, length-append ss.items (dc ∷ []));
    uniform = All-append (HasDim n) ss.items (dc ∷ []) (fits-All ss n v.uniform fits) (h, tt);
  }

  abbrev pub AddOutcome : SearchSpace C → Option C → ℕ → SearchSpace C × Bool → Type (ℓ ⊔ κ)
  AddOutcome ss dc now r =
      ((dc ≡ none) × (r ≡ (ss, false)))
      ⊎ ((c : C) × (dc ≡ some c)
          × (((i.distancer now c ≡ none) × (r ≡ (ss, false)))
              ⊎ ((d : D) × (i.distancer now c ≡ some d) × Added ss c d r)))

  Added-IsValid :
      (ss : SearchSpace C) (c : C) (d : D) (r : SearchSpace C × Bool)
      → HasDim (i.dim d) c
      → IsValid ss
      → Added ss c d r
      → IsValid r.0
  Added-IsValid ss c d r h v (inl (e, _)) = rw e v
  Added-IsValid ss c d r h v (inr (e, room, fits)) =
      rw e (extended-IsValid ss c (i.dim d) h v room fits)

  -- An addition to a valid space, of a container that gives vectors of one dimension, keeps it
  -- valid. It refuses and changes nothing where the container is nil or has expired, where the space
  -- is full, and where it is not empty and of another dimension; otherwise it adds the container at
  -- the end and takes its dimension.
  pub add_searchable-IsValid :
      (ss : SearchSpace C) (dc : Option C) (now : ℕ)
      → IsStable i
      → IsValid ss
      → let r = add_searchable i ss dc now in IsValid r.0 × AddOutcome ss dc now r
  unfolding add_searchable
  add_searchable-IsValid ss none now st v = (v, inl (refl, refl))
  add_searchable-IsValid ss (some c) now st v = elim (Option-cases (i.distancer now c)) [
    | inl e ↦ rw (e, add_searchable) (v, inr (c, refl, inl (e, refl)))
    | inr (d, e) ↦
        let added = add_valid-Added ss c d in
        let fixed : HasDim (i.dim d) c = λ t d' e'. st.dim_eq c t now d' d e' e in
        rw (e, add_searchable)
          (Added-IsValid ss c d _ fixed v added, inr (c, refl, inr (d, e, added)))
  ]

  clean_items-All {μ} :
      (P : C → Type μ) (clock : ℕ → ℕ) (items : List C)
      → All P items
      → All P (clean_items i clock items)
  unfolding clean_items
  clean_items-All P clock [] h = tt
  clean_items-All P clock (c ∷ cs) (p, h) =
      let rest = clean_items-All P (λ k. clock (k + 1)) cs h in
      elim (Option-cases (i.distancer (clock 0) c)) [
        | inl e ↦ rw (e, clean_items) rest
        | inr (d, e) ↦ rw (e, clean_items) (p, rest)
      ]

  length-clean_items-le :
      (clock : ℕ → ℕ) (items : List C) → length (clean_items i clock items) ≤ length items
  unfolding clean_items
  length-clean_items-le clock [] = omega arith
  length-clean_items-le clock (c ∷ cs) =
      ground (arith, length-clean_items-le (λ k. clock (k + 1)) cs)

  -- Clean keeps a space valid, and so does Clear.
  pub clean-IsValid : (ss : SearchSpace C) (clock : ℕ → ℕ) → IsValid ss → IsValid (clean i ss clock)
  unfolding clean
  clean-IsValid ss clock v = record {
    has_room = v.has_room;
    bounded = omega (arith, length-clean_items-le clock ss.items, v.bounded);
    uniform = clean_items-All (HasDim ss.vec_dim) clock ss.items v.uniform;
  }

  pub dim-clean : (ss : SearchSpace C) (clock : ℕ → ℕ) → (clean i ss clock).vec_dim ≡ ss.vec_dim
  unfolding clean
  dim-clean ss clock = refl

  -- The items that have not expired at an instant.
  pub live_at : ℕ → List C → List C
  live_at t [] = []
  live_at t (c ∷ cs) =
      let rest = live_at t cs in elim (i.distancer t c) [ none ↦ rest | some d ↦ c ∷ rest ]

  clean_items-eq-live_at : (t : ℕ) (items : List C) → clean_items i (λ _. t) items ≡ live_at t items
  unfolding clean_items live_at
  clean_items-eq-live_at t [] = refl
  clean_items-eq-live_at t (c ∷ cs) = ground (arith, clean_items-eq-live_at t cs)

  -- While the clock stands still, Clean keeps just the items that have not expired, in order.
  pub clean-eq-live_at :
      (ss : SearchSpace C) (t : ℕ) → (clean i ss (λ _. t)).items ≡ live_at t ss.items
  unfolding clean
  clean-eq-live_at ss t = clean_items-eq-live_at t ss.items
