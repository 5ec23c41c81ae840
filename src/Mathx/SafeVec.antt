-- ===== src/Mathx/SafeVec.antt =====
-- pkg/mathx/safevec.go: the read-only vector with its lazy norm, and the Distancer interface. An
-- index is an integer; a method that writes the cached norm returns the vector with it.
pub mod Agreement
use ddrop.Base.{
  ℕ, zero, suc, ◌+◌, Bool, true, false, not, ◌||◌, Option, none, some, List, [], ◌∷◌, length, ◌==◌,
  if◌then◌else◌, get_elem?,
}
use ddrop.Base.Int.{ℤ, pos, negsuc}
use ddrop.Float.{Float}

-- What the distance functions call of the other vector.
pub record Distancer {ℓ} (F : Type ℓ) : Type ℓ where
  pub dim : ℕ
  pub peek : ℤ → F × Bool
  pub norm : F

pub record SafeVec {ℓ} (F : Type ℓ) : Type ℓ where
  pub vec : List F
  pub norm : F
  pub norm_set : Bool

module _ {ℓ} {F : Type ℓ} ⦃f : Float F⦄ where
  unfoldable pub new_safe_vec : List F → SafeVec F
  new_safe_vec elements = record { vec = elements; norm = f.nought; norm_set = false }

  -- The i-th draw is rand i.
  random_elements : (ℕ → F) → ℕ → ℕ → List F
  random_elements rand i zero = []
  random_elements rand i (suc left) = rand i ∷ random_elements rand (i + 1) left

  unfoldable new_safe_vec_rand : (ℕ → F) → ℤ → Option (SafeVec F)
  new_safe_vec_rand rand (negsuc n) = none
  new_safe_vec_rand rand (pos dim) =
      some (record { vec = random_elements rand 0 dim; norm = f.nought; norm_set = false })

  unfoldable clone : SafeVec F → SafeVec F
  clone v = new_safe_vec v.vec

  -- A zero stands for the panic of an index out of range, which no caller meets.
  abbrev at : List F → ℕ → F
  at vec i = elim (get_elem? vec i) [ none ↦ f.nought | some x ↦ x ]

  unfoldable pub peek_elements : List F → ℤ → F × Bool
  peek_elements vec (negsuc n) = (f.nought, false)
  peek_elements vec (pos i) = elim (get_elem? vec i) [
    | none ↦ (f.nought, false)
    | some x ↦ (x, true)
  ]

  unfoldable pub peek : SafeVec F → ℤ → F × Bool
  unfolding peek_elements
  peek v index = peek_elements v.vec index

  -- The loop over the elements, with the state that the callback closes over. It ends where the
  -- callback returns false.
  pub iter_from {κ} : {S : Type κ} → (S → ℕ → F → S × Bool) → S → ℕ → List F → S
  iter_from callback s i [] = s
  iter_from callback s i (x ∷ xs) =
      let r = callback s i x in
      let rest = iter_from callback r.0 (i + 1) xs in if r.1 then rest else r.0

  pub iter {κ} : {S : Type κ} → SafeVec F → (S → ℕ → F → S × Bool) → S → S
  iter v callback s = iter_from callback s 0 v.vec

  pub eq : SafeVec F → SafeVec F → Bool
  eq v other =
      if not (length v.vec == length other.vec)
      then false
      else iter other (λ _ i elm. let e = f.eq (at v.vec i) elm in (e, e)) true

  is_in : SafeVec F → List (SafeVec F) → Bool
  is_in v [] = false
  is_in v (other ∷ others) = let rest = is_in v others in if eq v other then true else rest

  -- The norm, and the vector with the norm that this call caches. The loop adds to the field.
  pub norm_loop : F → List F → F
  norm_loop norm [] = norm
  norm_loop norm (x ∷ xs) = norm_loop (f.add norm (f.mul x x)) xs

  pub norm_of : SafeVec F → F × SafeVec F
  norm_of v =
      let norm = f.sqrt (norm_loop v.norm v.vec) in
      if v.norm_set then (v.norm, v) else (norm, record v { norm = norm; norm_set = true })

  -- A vector as the other side of a distance function.
  unfoldable pub as_distancer : SafeVec F → Distancer F
  as_distancer v = record { dim = length v.vec; peek = peek v; norm = (norm_of v).0 }

  -- `none` is the return on a failed Peek.
  pub euclidean_loop : Distancer F → F → ℕ → List F → Option F
  euclidean_loop other r i [] = some r
  euclidean_loop other r i (vi ∷ vs) =
      let (wi, ok) = other.peek (pos i) in
      let rest = euclidean_loop other (f.add r (f.mul (f.sub vi wi) (f.sub vi wi))) (i + 1) vs in
      if not ok then none else rest

  pub root_of : Option F → F × Bool
  root_of none = (f.nought, false)
  root_of (some r) = (f.sqrt r, true)

  pub euclidean_distance : SafeVec F → Option (Distancer F) → F × Bool
  unfolding root_of euclidean_loop
  euclidean_distance v none = (f.nought, false)
  euclidean_distance v (some other) =
      if not (length v.vec == other.dim)
      then (f.nought, false)
      else root_of (euclidean_loop other f.nought 0 v.vec)

  pub dot_loop : Distancer F → F → ℕ → List F → Option F
  dot_loop other dot i [] = some dot
  dot_loop other dot i (vi ∷ vs) =
      let (wi, ok) = other.peek (pos i) in
      let rest = dot_loop other (f.add dot (f.mul vi wi)) (i + 1) vs in
      if not ok then none else rest

  pub over_norms : F → F → Option F → F × Bool
  over_norms n m none = (f.nought, false)
  over_norms n m (some dot) = (f.div (f.div dot n) m, true)

  -- The result, and the vector with its cached norm.
  pub cosine_similarity : SafeVec F → Option (Distancer F) → (F × Bool) × SafeVec F
  unfolding norm_of norm_loop over_norms dot_loop
  cosine_similarity v none = ((f.nought, false), v)
  cosine_similarity v (some other) =
      let (n, v') = norm_of v in
      if not (length v.vec == other.dim)
      then ((f.nought, false), v)
      else if f.eq n f.nought || f.eq other.norm f.nought
      then ((f.nought, false), v')
      else (over_norms n other.norm (dot_loop other f.nought 0 v.vec), v')
