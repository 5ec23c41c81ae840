-- ===== src/Requestman/Storage/Keys.antt =====
-- Reading, writing and deleting the keys of a map.
use text.Mathlib.Text.{◌==◌ as str_eq}
use text.Mathlib.TextEquality.{eq_iff}
use Prim.Native.String.{String}
use ddrop.Base.{
  ◌≡◌, refl, Bool, true, false, ◌||◌, none, some, List, [], ◌∷◌, map, arith, if◌then◌else◌,
}
use ddrop.Requestman.Namespaces.{find, write, remove, remove_all}

module _ {ℓ} {V : Type ℓ} where
  pub find-write :
      (k j : String) (v : V) (m : List (String × V))
      → find j (write k v m) ≡ (if str_eq k j then some v else find j m)
  unfolding find write
  find-write k j v [] = refl
  find-write k j v ((i, w) ∷ m) =
      ground (arith, eq_iff k j, eq_iff i k, eq_iff i j, find-write k j v m)

  pub find-remove :
      (k j : String) (m : List (String × V))
      → find j (remove k m) ≡ (if str_eq k j then none else find j m)
  unfolding find remove
  find-remove k j [] = ground arith
  find-remove k j ((i, w) ∷ m) =
      ground (arith, eq_iff k j, eq_iff i k, eq_iff i j, find-remove k j m)

-- One of the keys is the given one.
unfoldable pub among : List String → String → Bool
among [] j = false
among (k ∷ ks) j = str_eq k j || among ks j

module _ {ℓ} {V : Type ℓ} where
  pub find-remove_all :
      (ks : List String) (j : String) (m : List (String × V))
      → find j (remove_all ks m) ≡ (if among ks j then none else find j m)
  unfolding remove_all among
  find-remove_all [] j m = refl
  find-remove_all (k ∷ ks) j m =
      ground (arith, find-remove_all ks j (remove k m), find-remove k j m)

  pub find_all_keys :
      (j : String) (m : List (String × V))
      → (if among (map (λ p. p.0) m) j then none else find j m) ≡ none
  unfolding among find
  find_all_keys j [] = refl
  find_all_keys j ((i, w) ∷ m) = ground (arith, find_all_keys j m)

module _ {ℓ} {V : Type ℓ} where
  pub key-among :
      (j : String) (m : List (String × V))
      → (elim (find j m) [ none ↦ false | some v ↦ true ]) ≡ among (map (λ p. p.0) m) j
  unfolding among find
  key-among j [] = refl
  key-among j ((i, w) ∷ m) = ground (arith, key-among j m)
