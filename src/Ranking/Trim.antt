-- ===== src/Ranking/Trim.antt =====
-- What `trim` keeps: the set items of a list, in order.
use mathlib.Core.List.Perm
use mathlib.Core.List.{filter, append-nil}
use mathlib.Core.Bool.{Bool-discrete}
use ddrop.Base.{
  ◌≤◌, ◌≡◌, refl, inl, inr, true, false, List, [], ◌∷◌, ◌++◌, Perm, arith, length, All, Bool-cases,
  length-eq_of_perm, sym, ◌∙◌, ap,
}
use ddrop.Float.{Float}
use ddrop.Ranking.{Slot, trim}

module _ {ℓ κ} {F : Type ℓ} {T : Type κ} ⦃f : Float F⦄ (s : Slot F T) where
  pub trim-append : (xs ys : List T) → trim s (xs ++ ys) ≡ trim s xs ++ trim s ys
  unfolding trim
  trim-append [] ys = refl
  trim-append (x ∷ xs) ys = ground (arith, trim-append xs ys)

  pub trim_set : (xs : List T) → All (λ x. s.is_set x ≡ true) xs → trim s xs ≡ xs
  unfolding trim
  trim_set [] h = refl
  trim_set (x ∷ xs) (e, h) = ground (arith, trim_set xs h)

  pub trim_unset : (xs : List T) → All (λ x. s.is_set x ≡ false) xs → trim s xs ≡ []
  unfolding trim
  trim_unset [] h = refl
  trim_unset (x ∷ xs) (e, h) = ground (arith, trim_unset xs h)

  pub length-trim-le : (xs : List T) → length (trim s xs) ≤ length xs
  unfolding trim
  length-trim-le [] = omega arith
  length-trim-le (x ∷ xs) = ground (arith, length-trim-le xs)

  trim-eq-filter : (xs : List T) → trim s xs ≡ filter (λ x. Bool-discrete (s.is_set x) true) xs
  unfolding trim
  trim-eq-filter [] = refl
  trim-eq-filter (x ∷ xs) = ground (arith, trim-eq-filter xs)

  pub trim-perm : {xs ys : List T} → Perm xs ys → Perm (trim s xs) (trim s ys)
  trim-perm {xs} {ys} p = rw (trim-eq-filter xs, trim-eq-filter ys) (Perm.filter _ p)

  pub trim-inputs :
      (xs slots : List T)
      → All (λ x. s.is_set x ≡ true) xs
      → All (λ y. s.is_set y ≡ false) slots
      → trim s (xs ++ slots) ≡ xs
  trim-inputs xs slots held unset =
      rw (trim-append xs slots, trim_set xs held, trim_unset slots unset) (append-nil xs)

  -- A list of which trim keeps all consists of set items.
  trim_all : (xs : List T) → length (trim s xs) ≡ length xs → All (λ x. s.is_set x ≡ true) xs
  unfolding trim
  trim_all [] e = tt
  trim_all (x ∷ xs) e = elim (Bool-cases (s.is_set x)) [
    | inl set_x ↦ (set_x, trim_all xs (ground (arith, e)))
    | inr unset_x ↦ absurd (ground (arith, length-trim-le xs))
  ]

  pub set-perm :
      {xs ys : List T}
      → Perm xs ys
      → All (λ x. s.is_set x ≡ true) xs
      → All (λ x. s.is_set x ≡ true) ys
  set-perm {xs} {ys} p h =
      trim_all ys
        (sym (length-eq_of_perm (trim-perm p)) ∙ ap length (trim_set xs h) ∙ length-eq_of_perm p)
