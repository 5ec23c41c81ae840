-- ===== src/Tests/Vectors.antt =====
-- Runs of the vectors of pkg/mathx.
use ddrop.Base.{ℕ, ◌≡◌, false, [], ◌∷◌}
use ddrop.Float.{whole_float}
use ddrop.Mathx.SafeVec.{SafeVec, as_distancer}
use ddrop.Ops.Answers.{distancer_to_vec}
use ddrop.Ops.Merge.{distancer_to_vec-as_distancer}

abbrev pub v : SafeVec ℕ
v = record { vec = 3 ∷ (4 ∷ []); norm = 0; norm_set = false }

abbrev pub w : SafeVec ℕ
w = record { vec = 2 ∷ (1 ∷ []); norm = 0; norm_set = false }

distancer_to_vec-as_distancer_example : distancer_to_vec (as_distancer v) ≡ v.vec
distancer_to_vec-as_distancer_example = distancer_to_vec-as_distancer v
