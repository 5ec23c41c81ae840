-- ===== src/Base/Perms.antt =====
-- Permutations, with lengths by the native numbers.
use mathlib.Core.Path.{◌≡◌, refl, ◌∙◌}
use mathlib.Core.Logic.{∥∥₁_elim}
use mathlib.Core.List.{List, ◌∷◌, ◌++◌, Permᴰ, Perm, perm_middle, append_assoc, perm_append_comm}
use mathlib.Core.List.Perm
use native.Mathlib.Nat.{ℕ_set}
use ddrop.Base.Lists.{length}
use native.Mathlib.Omega.{arith}

module _ {ℓ} {A : Type ℓ} where
  length-eq_of_permᴰ : {xs ys : List A} → Permᴰ xs ys → length xs ≡ length ys
  length-eq_of_permᴰ Permᴰ.nil = refl
  length-eq_of_permᴰ (Permᴰ.cons e p) = omega (arith, length-eq_of_permᴰ p)
  length-eq_of_permᴰ (Permᴰ.swap e e') = refl
  length-eq_of_permᴰ (Permᴰ.trans p q) = length-eq_of_permᴰ p ∙ length-eq_of_permᴰ q

  pub length-eq_of_perm : {xs ys : List A} → Perm xs ys → length xs ≡ length ys
  length-eq_of_perm {xs} {ys} p =
      ∥∥₁_elim p (ℕ_set (length xs) (length ys)) λ q. length-eq_of_permᴰ q

  -- An exchange of one item between two parts.
  pub exchange-perm :
      {x o : A} {xs kept : List A} (left ys all : List A)
      → Perm (o ∷ kept) (x ∷ xs)
      → Perm (left ++ all) (ys ++ kept)
      → Perm ((o ∷ left) ++ all) ((x ∷ ys) ++ xs)
  exchange-perm {x} {o} {xs} {kept} left ys all p q = Perm.trans (Perm.cons o q) (
      Perm.trans (Perm.symm (perm_middle ys kept))
        (Perm.trans (Perm.append_left ys p) (perm_middle ys xs)))

module _ {ℓ} {T : Type ℓ} where
  pub append-exchange : (a b c d : List T) → Perm ((a ++ b) ++ (c ++ d)) ((a ++ c) ++ (b ++ d))
  append-exchange a b c d =
      rw (append_assoc a b (c ++ d), append_assoc a c (b ++ d))
        (Perm.append_left a (
          rw (← append_assoc b c d, ← append_assoc c b d)
            (Perm.append_right d (perm_append_comm b c))))

  pub take_out :
      (a b c d : List T) (x : T) → Perm (a ++ ((b ++ (x ∷ c)) ++ d)) (x ∷ (a ++ ((b ++ c) ++ d)))
  take_out a b c d x =
      rw
        (
          append_assoc b (x ∷ c) d,
          append_assoc b c d,
          ← append_assoc a b (x ∷ (c ++ d)),
          ← append_assoc a b (c ++ d),
        )
        (perm_middle (a ++ b) (c ++ d))
