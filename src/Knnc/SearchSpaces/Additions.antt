-- ===== src/Knnc/SearchSpaces/Additions.antt =====
-- The invariant of a collection of search spaces, and additions to it.
mod Attempts
pub use Attempts.{Holds, IsValid}
use ddrop.Knnc.SearchSpaces.Additions.Attempts.{
  sum_len-cons, sum_len-nil, All-of_no_spaces, sum_len-append, Attempt, try_add-Holds,
}
use mathlib.Core.Option.{some-injective}
use ddrop.Base.{
  ℕ, zero, suc, ◌+◌, ◌≤◌, ◌<◌, ◌≡◌, refl, sym, ap, ◌∙◌, inl, inr, ◌⊎◌, Bool, true, false, not, ◌&&◌,
  Option, none, some, List, [], ◌∷◌, ◌++◌, arith, length, length-append, All, All-append, leb, ◌==◌,
  if◌then◌else◌, Bool-cases, Option-cases, subst,
}
use ddrop.Base.Int.{ℤ, pos, negsuc}
use ddrop.Knnc.Items.{Container, IsStable}
use ddrop.Knnc.SearchSpace
use ddrop.Knnc.SearchSpace.{SearchSpace}
use ddrop.Knnc.SearchSpace.Invariant.{Added, AddOutcome, add_searchable-IsValid, extended}
use ddrop.Knnc.SearchSpace.Invariant
use ddrop.Knnc.SearchSpaces.{
  SearchSpaces, sum_len, try_add, new_with, append_space, add_valid, add_searchable,
}

module _ {ℓ κ} {C : Type ℓ} {D : Type κ} (i : Container C D) where
  abbrev new_space : ℕ → SearchSpace C
  new_space k = record { items = []; capacity = suc k; vec_dim = 0 }

  first_added :
      (k : ℕ) (dc : C) (now n : ℕ) (r : SearchSpace C × Bool)
      → ((t : ℕ) (d : D) → i.distancer t dc ≡ some d → i.dim d ≡ n)
      → r.1 ≡ true
      → AddOutcome i (new_space k) (some dc) now r
      → (length r.0.items ≡ 1) × (r.0.vec_dim ≡ n)
  first_added k dc now n r dims e (inl (f, _)) = absurd (ground arith)
  first_added k dc now n r dims e (inr (c, _, inl (_, f))) = absurd (ground arith)
  first_added k dc now n r dims e (inr (c, _, inr (d, _, inl (f, _)))) = absurd (ground arith)
  first_added k dc now n r dims e (inr (c, g, inr (d, h, inr (f, _, _)))) =
      let same : dc ≡ c = some-injective _ _ g in
      (
        ap (λ p. length p.0.items) f,
        ap (λ p. p.0.vec_dim) f ∙ dims now d (ap (i.distancer now) same ∙ h),
      )

  new_with-eq :
      (k : ℕ) (dc : C) (now : ℕ)
      → let r = SearchSpace.add_searchable i (new_space k) (some dc) now in
        new_with i (pos (suc k)) (some dc) now ≡ (if r.1 then some r.0 else none)
  unfolding new_with SearchSpace.new_search_space
  new_with-eq k dc now = refl

  -- A space made for an addition holds just its container.
  new_with-Holds :
      (max_cap : ℤ) (dc : C) (now n : ℕ) (s : SearchSpace C)
      → IsStable i
      → ((t : ℕ) (d : D) → i.distancer t dc ≡ some d → i.dim d ≡ n)
      → new_with i max_cap (some dc) now ≡ some s
      → Holds i n s × (length s.items ≡ 1)
  unfolding new_with SearchSpace.new_search_space
  new_with-Holds (pos zero) dc now n s st dims e = cc
  new_with-Holds (negsuc m) dc now n s st dims e = cc
  new_with-Holds (pos (suc k)) dc now n s st dims e =
      let r = SearchSpace.add_searchable i (new_space k) (some dc) now in
      let start : Invariant.IsValid i (new_space k) = record {
        has_room = omega arith;
        bounded = omega arith;
        uniform = tt;
      } in
      let (valid, outcome) = add_searchable-IsValid i (new_space k) (some dc) now st start in
      elim (Bool-cases r.1) [
        | inr refused ↦ absurd (ground arith)
        | inl added ↦
            let (one, same) = first_added k dc now n r dims added outcome in
            let made : r.0 ≡ s = ground arith in
            subst (λ x. Holds i n x × (length x.items ≡ 1)) made
              (record { valid = valid; filled = omega arith; dim_eq = same }, one)
      ]

  -- What an addition to the collection comes to.
  abbrev pub Result : SearchSpaces C → SearchSpaces C × Bool → Type (ℓ ⊔ κ)
  Result ss r =
      IsValid i r.0
      × (((r.1 ≡ false) × (r.0 ≡ ss))
          ⊎ ((r.1 ≡ true) × (sum_len 0 r.0.spaces ≡ sum_len 0 ss.spaces + 1)))

  abbrev joined_dim : SearchSpaces C → SearchSpace C → D → ℕ
  joined_dim ss s d = if length (ss.spaces ++ s ∷ []) == 1 then i.dim d else ss.uniform_dim

  joined_dim_lem :
      (ss : SearchSpaces C) (s : SearchSpace C) (d : D)
      → (i.dim d ≡ ss.uniform_dim) ⊎ (length ss.spaces ≡ 0)
      → (i.dim d ≡ joined_dim ss s d)
        × ((joined_dim ss s d ≡ ss.uniform_dim) ⊎ (length ss.spaces ≡ 0))
  joined_dim_lem ss s d (inl same) = (ground arith, inl (ground arith))
  joined_dim_lem ss s d (inr empty) = (ground (arith, length-append ss.spaces (s ∷ [])), inr empty)

  each-joined :
      (ss : SearchSpaces C) (n : ℕ)
      → All (Holds i ss.uniform_dim) ss.spaces
      → (n ≡ ss.uniform_dim) ⊎ (length ss.spaces ≡ 0)
      → All (Holds i n) ss.spaces
  each-joined ss n h (inl e) = subst (λ m. All (Holds i m) ss.spaces) (sym e) h
  each-joined ss n h (inr e) = All-of_no_spaces i n ss.spaces e

  append_space-Result :
      (ss : SearchSpaces C) (dc : C) (d : D) (new : Option (SearchSpace C))
      → IsValid i ss
      → length ss.spaces < ss.capacity
      → ((s : SearchSpace C) → new ≡ some s → Holds i (i.dim d) s × (length s.items ≡ 1))
      → (i.dim d ≡ ss.uniform_dim) ⊎ (length ss.spaces ≡ 0)
      → Result ss (append_space i ss ss.spaces new d)
  unfolding append_space
  append_space-Result ss dc d none v room made fits = (v, inl (refl, refl))
  append_space-Result ss dc d (some s) v room made fits =
      let (holds, one) = made s refl in
      let (same, old) = joined_dim_lem ss s d fits in
      let n = joined_dim ss s d in
      (
        record {
          bounded = omega (arith, length-append ss.spaces (s ∷ []));
          each =
              All-append (Holds i n) ss.spaces (s ∷ []) (each-joined ss n v.each old)
                (subst (λ m. Holds i m s) same holds, tt);
        },
        inr (
          refl,
          omega (arith, sum_len-append i ss.spaces (s ∷ []), sum_len-cons i s [], sum_len-nil i),
        ),
      )

  abbrev unfit : SearchSpaces C → D → Bool
  unfit ss d = not (i.dim d == ss.uniform_dim) && not (length ss.spaces == 0)

  unfit_lem :
      (ss : SearchSpaces C) (d : D)
      → unfit ss d ≡ false
      → (i.dim d ≡ ss.uniform_dim) ⊎ (length ss.spaces ≡ 0)
  unfit_lem ss d e = ground arith

  -- The rest of an addition behind the test of the dimension.
  abbrev place :
      SearchSpaces C
      → D
      → List (SearchSpace C) × Bool
      → Option (SearchSpace C)
      → SearchSpaces C × Bool
  place ss d t new =
      if t.1
      then (record ss { spaces = t.0 }, true)
      else if leb ss.capacity (length t.0)
      then (record ss { spaces = t.0 }, false)
      else append_space i ss t.0 new d

  placed :
      (ss : SearchSpaces C) (dc : C) (d : D) (t : List (SearchSpace C) × Bool)
      (new : Option (SearchSpace C))
      → IsValid i ss
      → ((s : SearchSpace C) → new ≡ some s → Holds i (i.dim d) s × (length s.items ≡ 1))
      → (i.dim d ≡ ss.uniform_dim) ⊎ (length ss.spaces ≡ 0)
      → Attempt i ss.uniform_dim ss.spaces t
      → Result ss (place ss d t new)
  placed ss dc d t new v made fits (all, (l, inr (e, more))) =
      rw e (record { bounded = omega arith; each = all }, inr (refl, more))
  placed ss dc d (spaces, ok) new v made fits (all, (l, inl (e, same))) =
      elim (Bool-cases (leb ss.capacity (length ss.spaces))) [
        | inl full ↦ rw (e, same, full) (v, inl (refl, refl))
        | inr room ↦ rw (e, same, room) (append_space-Result ss dc d new v (ground arith) made fits)
      ]

  add_valid-Result :
      (ss : SearchSpaces C) (dc : C) (d : D) (clock : ℕ → ℕ)
      → IsStable i
      → IsValid i ss
      → i.distancer (clock 0) dc ≡ some d
      → Result ss (add_valid i ss dc d clock)
  unfolding add_valid
  add_valid-Result ss dc d clock st v live =
      let dims : (t : ℕ) (e : D) → i.distancer t dc ≡ some e → i.dim e ≡ i.dim d =
        λ t e h. st.dim_eq dc t (clock 0) e d h live in
      let made = λ (s : SearchSpace C).
        new_with-Holds ss.max_cap dc (clock (length ss.spaces + 1)) (i.dim d) s st dims in
      elim (Bool-cases (unfit ss d)) [
        | inl e ↦ rw e (v, inl (refl, refl))
        | inr e ↦ rw e (
            placed ss dc d _ _ v made (unfit_lem ss d e)
              (try_add-Holds i ss.spaces (some dc) (λ k. clock (k + 1)) ss.uniform_dim st v.each))
      ]

  -- An addition to a valid collection, of a container that gives vectors of one dimension, keeps it
  -- valid: at most as many spaces as its capacity, none of them empty, each valid and of the uniform
  -- dimension. It adds one item to the total and returns true, or it returns false and changes
  -- nothing.
  pub add_searchable-Result :
      (ss : SearchSpaces C) (dc : Option C) (clock : ℕ → ℕ)
      → IsStable i
      → IsValid i ss
      → Result ss (add_searchable i ss dc clock)
  unfolding add_searchable
  add_searchable-Result ss none clock st v = (v, inl (refl, refl))
  add_searchable-Result ss (some dc) clock st v = elim (Option-cases (i.distancer (clock 0) dc)) [
    | inl e ↦ rw (e, add_searchable) (v, inl (refl, refl))
    | inr (d, e) ↦ rw (e, add_searchable) (add_valid-Result ss dc d clock st v e)
  ]
