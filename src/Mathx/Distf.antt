-- ===== src/Mathx/Distf.antt =====
-- pkg/mathx/distf.go: distance functions on slices of floats.
use ddrop.Base.{Bool, true, false, ◌||◌, List, [], ◌∷◌, length, ◌==◌, if◌then◌else◌, not}
use ddrop.Float.{Float}

module _ {ℓ} {F : Type ℓ} ⦃f : Float F⦄ where
  -- for i := ...: r += (v1[i] - v2[i]) * (v1[i] - v2[i])
  unfoldable pub euclidean_sum : F → List F → List F → F
  euclidean_sum r (x ∷ xs) (y ∷ ys) = euclidean_sum (f.add r (f.mul (f.sub x y) (f.sub x y))) xs ys
  euclidean_sum r _ _ = r

  unfoldable pub euclidean_distance : List F → List F → F × Bool
  euclidean_distance v1 v2 =
      if not (length v1 == length v2)
      then (f.nought, false)
      else (f.sqrt (euclidean_sum f.nought v1 v2), true)

  -- for i := ...: x += vec[i] * vec[i]
  unfoldable pub square_sum : F → List F → F
  square_sum x [] = x
  square_sum x (v ∷ vec) = square_sum (f.add x (f.mul v v)) vec

  unfoldable pub norm : List F → F
  norm vec = f.sqrt (square_sum f.nought vec)

  -- for i := ...: dot += v1[i] * v2[i]
  unfoldable pub dot_sum : F → List F → List F → F
  dot_sum dot (x ∷ xs) (y ∷ ys) = dot_sum (f.add dot (f.mul x y)) xs ys
  dot_sum dot _ _ = dot

  unfoldable pub cosine_similarity : List F → List F → F × Bool
  cosine_similarity v1 v2 =
      let norm1 = norm v1 in
      let norm2 = norm v2 in
      if not (length v1 == length v2)
      then (f.nought, false)
      else if f.eq norm1 f.nought || f.eq norm2 f.nought
      then (f.nought, false)
      else (f.div (f.div (dot_sum f.nought v1 v2) norm1) norm2, true)
