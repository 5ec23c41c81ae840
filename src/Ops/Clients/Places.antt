-- ===== src/Ops/Clients/Places.antt =====
-- Permutations that take a result out of its place in a composite call.
use mathlib.Core.List.{perm_middle, append_assoc}
use mathlib.Core.List.Perm
use ddrop.Base.{◌+◌, ◌≡◌, subst, List, [], ◌∷◌, ◌++◌, length, length-append, Perm, arith, take_out}

module _ {ℓ} {A : Type ℓ} where
  pub ask-perm :
      (s b a l o : List A) (x : A)
      → Perm ((s ++ ((b ++ a) ++ (x ∷ l))) ++ o) ((s ++ ((b ++ (x ∷ a)) ++ l)) ++ o)
  ask-perm s b a l o x = Perm.append_right o (
      Perm.append_left s
        (Perm.trans (perm_middle (b ++ a) l) (Perm.symm (Perm.append_right l (perm_middle b a)))))

  pub take_selected :
      (s k b a o : List A) (x : A)
      → Perm ((s ++ (k ++ (b ++ (x ∷ a)))) ++ o) (x ∷ ((s ++ (k ++ (b ++ a))) ++ o))
  take_selected s k b a o x =
      rw
        (
          ← append_assoc s k (b ++ (x ∷ a)),
          ← append_assoc s k (b ++ a),
          append_assoc (s ++ k) (b ++ (x ∷ a)) o,
          append_assoc (s ++ k) (b ++ a) o,
        )
        (take_out (s ++ k) b a o x)

  pub take_buffered :
      (w r b d : List A) (x : A)
      → Perm (w ++ (r ++ ((b ++ (x ∷ [])) ++ d))) (x ∷ (w ++ (r ++ (b ++ d))))
  take_buffered w r b d x =
      rw
        (
          append_assoc b (x ∷ []) d,
          ← append_assoc r b (x ∷ d),
          ← append_assoc w (r ++ b) (x ∷ d),
          ← append_assoc r b d,
          ← append_assoc w (r ++ b) d,
        )
        (perm_middle (w ++ (r ++ b)) d)

  pub take_dropped :
      (w r b d : List A) (x : A) → Perm (w ++ (r ++ (b ++ (x ∷ d)))) (x ∷ (w ++ (r ++ (b ++ d))))
  take_dropped w r b d x =
      subst (λ l. Perm (w ++ (r ++ l)) (x ∷ (w ++ (r ++ (b ++ d))))) (append_assoc b (x ∷ []) d)
        (take_buffered w r b d x)

  pub length-parts : (r b d : List A) → length (r ++ (b ++ d)) ≡ length r + (length b + length d)
  length-parts r b d = omega (arith, length-append r (b ++ d), length-append b d)
