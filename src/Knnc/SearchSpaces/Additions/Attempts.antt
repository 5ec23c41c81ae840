-- ===== src/Knnc/SearchSpaces/Additions/Attempts.antt =====
-- The invariant of a collection of search spaces, and the attempts of an addition on all its spaces.
use ddrop.Base.{
  ℕ, suc, ◌+◌, ◌≤◌, ◌<◌, ◌≡◌, refl, sym, ap, ◌∙◌, inl, inr, ◌⊎◌, Bool, true, false, Option, List,
  [], ◌∷◌, ◌++◌, arith, length, length-append, All, subst,
}
use ddrop.Knnc.Items.{Container, IsStable}
use ddrop.Knnc.SearchSpace
use ddrop.Knnc.SearchSpace.{SearchSpace}
use ddrop.Knnc.SearchSpace.Invariant.{Added, AddOutcome, add_searchable-IsValid, extended}
use ddrop.Knnc.SearchSpace.Invariant
use ddrop.Knnc.SearchSpaces.{SearchSpaces, sum_len, try_add}

module _ {ℓ κ} {C : Type ℓ} {D : Type κ} (i : Container C D) where
  -- A space of the collection is valid, not empty, and of the uniform dimension.
  pub record Holds (n : ℕ) (s : SearchSpace C) : Type (ℓ ⊔ κ) where
    pub valid : Invariant.IsValid i s
    pub filled : 0 < length s.items
    pub dim_eq : s.vec_dim ≡ n

  pub record IsValid (ss : SearchSpaces C) : Type (ℓ ⊔ κ) where
    pub bounded : length ss.spaces ≤ ss.capacity
    pub each : All (Holds ss.uniform_dim) ss.spaces

  -- How one space changes under an addition.
  abbrev Changed : SearchSpace C → SearchSpace C × Bool → Type ℓ
  Changed s r =
      ((r.1 ≡ false) × (r.0 ≡ s)) ⊎ ((r.1 ≡ true) × (length r.0.items ≡ length s.items + 1))

  outcome-Changed :
      (s : SearchSpace C) (dc : Option C) (now : ℕ) (r : SearchSpace C × Bool)
      → AddOutcome i s dc now r
      → Changed s r
  outcome-Changed s dc now r (inl (_, e)) = inl (ap (λ p. p.1) e, ap (λ p. p.0) e)
  outcome-Changed s dc now r (inr (c, _, inl (_, e))) = inl (ap (λ p. p.1) e, ap (λ p. p.0) e)
  outcome-Changed s dc now r (inr (c, _, inr (d, _, inl (e, _)))) =
      inl (ap (λ p. p.1) e, ap (λ p. p.0) e)
  outcome-Changed s dc now r (inr (c, _, inr (d, _, inr (e, _, _)))) =
      inr (ap (λ p. p.1) e, ap (λ p. length p.0.items) e ∙ length-append s.items (c ∷ []))

  outcome-dim :
      (s : SearchSpace C) (dc : Option C) (now : ℕ) (r : SearchSpace C × Bool)
      → 0 < length s.items
      → AddOutcome i s dc now r
      → r.0.vec_dim ≡ s.vec_dim
  outcome-dim s dc now r h (inl (_, e)) = ap (λ p. p.0.vec_dim) e
  outcome-dim s dc now r h (inr (c, _, inl (_, e))) = ap (λ p. p.0.vec_dim) e
  outcome-dim s dc now r h (inr (c, _, inr (d, _, inl (e, _)))) = ap (λ p. p.0.vec_dim) e
  outcome-dim s dc now r h (inr (c, _, inr (d, _, inr (e, _, inl empty)))) = absurd (omega arith)
  outcome-dim s dc now r h (inr (c, _, inr (d, _, inr (e, _, inr same)))) =
      ap (λ p. p.0.vec_dim) e ∙ same

  add-Holds :
      (s : SearchSpace C) (dc : Option C) (now n : ℕ)
      → IsStable i
      → Holds n s
      → let r = SearchSpace.add_searchable i s dc now in Holds n r.0 × Changed s r
  add-Holds s dc now n st h =
      let (valid, outcome) = add_searchable-IsValid i s dc now st h.valid in
      let changed = outcome-Changed s dc now _ outcome in
      (
        record {
          valid = valid;
          filled = ground (arith, h.filled, changed);
          dim_eq = outcome-dim s dc now _ h.filled outcome ∙ h.dim_eq;
        },
        changed,
      )

  -- The attempts on all spaces keep them, and add to one of them or to none.
  abbrev Tried : List (SearchSpace C) → List (SearchSpace C) × Bool → Type ℓ
  Tried spaces r =
      (length r.0 ≡ length spaces)
      × (((r.1 ≡ false) × (r.0 ≡ spaces)) ⊎ ((r.1 ≡ true) × (sum_len 0 r.0 ≡ sum_len 0 spaces + 1)))

  sum_len-from : (n : ℕ) (spaces : List (SearchSpace C)) → sum_len n spaces ≡ n + sum_len 0 spaces
  unfolding sum_len
  sum_len-from n [] = omega arith
  sum_len-from n (s ∷ spaces) = omega (
    arith,
    sum_len-from (n + SearchSpace.len s) spaces,
    sum_len-from (0 + SearchSpace.len s) spaces,
  )

  pub sum_len-cons :
      (s : SearchSpace C) (spaces : List (SearchSpace C))
      → sum_len 0 (s ∷ spaces) ≡ length s.items + sum_len 0 spaces
  unfolding sum_len SearchSpace.len
  sum_len-cons s spaces = omega (arith, sum_len-from (0 + length s.items) spaces)

  pub sum_len-nil : sum_len {C = C} 0 [] ≡ 0
  unfolding sum_len
  sum_len-nil = refl

  pub All-of_no_spaces :
      (n : ℕ) (spaces : List (SearchSpace C)) → length spaces ≡ 0 → All (Holds n) spaces
  All-of_no_spaces n [] e = tt
  All-of_no_spaces n (s ∷ spaces) e = absurd (omega arith)

  pub sum_len-append :
      (xs ys : List (SearchSpace C)) → sum_len 0 (xs ++ ys) ≡ sum_len 0 xs + sum_len 0 ys
  sum_len-append [] ys = unfold sum_len in omega arith
  sum_len-append (s ∷ xs) ys =
      omega (arith, sum_len-cons s (xs ++ ys), sum_len-cons s xs, sum_len-append xs ys)

  behind-Tried :
      (s : SearchSpace C) (spaces : List (SearchSpace C)) (t : List (SearchSpace C) × Bool)
      → Tried spaces t
      → Tried (s ∷ spaces) (s ∷ t.0, t.1)
  behind-Tried s spaces t (l, inl (e, same)) = (ap suc l, inl (e, ap (◌∷◌ s) same))
  behind-Tried s spaces t (l, inr (e, more)) =
      (ap suc l, inr (e, omega (arith, sum_len-cons s t.0, sum_len-cons s spaces)))

  added-Tried :
      (s s' : SearchSpace C) (spaces : List (SearchSpace C))
      → length s'.items ≡ length s.items + 1
      → Tried (s ∷ spaces) (s' ∷ spaces, true)
  added-Tried s s' spaces e =
      (refl, inr (refl, omega (arith, sum_len-cons s' spaces, sum_len-cons s spaces)))

  abbrev pub Attempt : ℕ → List (SearchSpace C) → List (SearchSpace C) × Bool → Type (ℓ ⊔ κ)
  Attempt n spaces r = All (Holds n) r.0 × Tried spaces r

  try_added :
      (s : SearchSpace C) (spaces : List (SearchSpace C)) (dc : Option C) (clock : ℕ → ℕ)
      → let r = SearchSpace.add_searchable i s dc (clock 0) in
        r.1 ≡ true → try_add i (s ∷ spaces) dc clock ≡ (r.0 ∷ spaces, true)
  unfolding try_add
  try_added s spaces dc clock e = rw e

  try_refused :
      (s : SearchSpace C) (spaces : List (SearchSpace C)) (dc : Option C) (clock : ℕ → ℕ)
      → let r = SearchSpace.add_searchable i s dc (clock 0) in
        let t = try_add i spaces dc (λ k. clock (k + 1)) in
        r.1 ≡ false → r.0 ≡ s → try_add i (s ∷ spaces) dc clock ≡ (s ∷ t.0, t.1)
  unfolding try_add
  try_refused s spaces dc clock e same = rw (e, same)

  pub try_add-Holds :
      (spaces : List (SearchSpace C)) (dc : Option C) (clock : ℕ → ℕ) (n : ℕ)
      → IsStable i
      → All (Holds n) spaces
      → Attempt n spaces (try_add i spaces dc clock)
  try_add-Holds [] dc clock n st h = unfold try_add in (tt, (refl, inl (refl, refl)))
  try_add-Holds (s ∷ spaces) dc clock n st (h, hs) =
      let (kept, changed) = add-Holds s dc (clock 0) n st h in
      let (all, tried) = try_add-Holds spaces dc (λ k. clock (k + 1)) n st hs in
      elim changed [
        | inl (refused, same) ↦
            subst (Attempt n (s ∷ spaces)) (sym (try_refused s spaces dc clock refused same))
              ((h, all), behind-Tried s spaces _ tried)
        | inr (added, more) ↦
            subst (Attempt n (s ∷ spaces)) (sym (try_added s spaces dc clock added))
              ((kept, hs), added-Tried s _ spaces more)
      ]
