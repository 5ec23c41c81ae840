-- ===== src/Ranking/Merge/Beating.antt =====
-- How many items of a list are better than a given one.
use ddrop.Base.{
  ℕ, ◌+◌, ◌≤◌, ◌<◌, ◌≡◌, ap, ◌∙◌, Bool, false, List, ◌∷◌, ◌++◌, Perm, arith, length, length-append,
  length-eq_of_perm,
}
use ddrop.Float.{Float}
use ddrop.Ranking.{Slot, better, trim}
use ddrop.Ranking.Trim.{trim-append, length-trim-le, trim-perm}

module _ {ℓ κ} {F : Type ℓ} {T : Type κ} ⦃f : Float F⦄ (s : Slot F T) (is_number : F → Bool)
    (asc : Bool) where
  -- The items with a number for a score, and those that are better than a given one.
  abbrev pub numbers : Slot F T
  numbers = record { score = s.score; is_set = λ x. is_number (s.score x) }

  abbrev pub ahead_of : T → Slot F T
  ahead_of a = record { score = s.score; is_set = λ b. better s asc b a }

  abbrev pub beating : T → List T → ℕ
  beating a xs = length (trim (ahead_of a) xs)

  pub beating-append : (a : T) (xs ys : List T) → beating a (xs ++ ys) ≡ beating a xs + beating a ys
  beating-append a xs ys =
      ap length (trim-append (ahead_of a) xs ys)
      ∙ length-append (trim (ahead_of a) xs) (trim (ahead_of a) ys)

  pub beating-perm : (a : T) {xs ys : List T} → Perm xs ys → beating a xs ≡ beating a ys
  beating-perm a p = length-eq_of_perm (trim-perm (ahead_of a) p)

  beating-behind :
      (a : T) (after : List T) → better s asc a a ≡ false → beating a (a ∷ after) ≤ length after
  unfolding trim
  beating-behind a after e = rw e (length-trim-le (ahead_of a) after)

  -- An item that is not better than itself.
  pub beating-lt :
      (before : List T) (a : T) (after : List T)
      → better s asc a a ≡ false
      → beating a (before ++ (a ∷ after)) < length (before ++ (a ∷ after))
  beating-lt before a after e = omega (
    arith,
    beating-append a before (a ∷ after),
    length-append before (a ∷ after),
    length-trim-le (ahead_of a) before,
    beating-behind a after e,
  )
