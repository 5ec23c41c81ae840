-- ===== src/Knn/Prefabs.antt =====
-- pkg/knn/prefabs.go: searches over generators of vectors. A nil vector or function is `none`, and
-- a Distancer is a SafeVec, its one implementation; the second generator's elements may be nil.
use ddrop.Base.{
  ℕ, Bool, true, false, not, Option, none, some, List, [], ◌∷◌, if◌then◌else◌, bools_ok,
}
use ddrop.Base.Int.{ℤ, pos, ltb_ℤ}
use ddrop.Float.{Float}
use ddrop.Knn.{is_some, knn_brute}
use ddrop.Mathx.Distf
use ddrop.Mathx.SafeVec
use ddrop.Mathx.SafeVec.{SafeVec, as_distancer}

-- KNNBruteFloatsArgs and KNNBruteDistArgs have the same fields over another type of vectors.
pub record PrefabArgs {ℓ} (F V W : Type ℓ) : Type ℓ where
  pub query : Option V
  pub pool_generator : Option (ℕ → W × Bool)
  pub distance_func : Option (V → W → F × Bool)
  pub k : ℤ
  pub ascending : Bool

module _ {ℓ} {F V W : Type ℓ} where
  prefab_ok : PrefabArgs F V W → Bool
  prefab_ok args = bools_ok (
      is_some args.query
      ∷ is_some args.pool_generator
      ∷ is_some args.distance_func
      ∷ ltb_ℤ (pos 0) args.k
      ∷ [])

module _ {ℓ} {F V W : Type ℓ} ⦃f : Float F⦄ where
  -- The closure over the pool, the query and the distance function, where none of them is nil.
  pub score_generator :
      Option V → Option (ℕ → W × Bool) → Option (V → W → F × Bool) → Option (ℕ → F × Bool)
  score_generator (some query) (some pool) (some distance) =
      some λ i. let (v, cont) = pool i in if not cont then (f.nought, cont) else distance query v
  score_generator _ _ _ = none

  -- KNNBruteFloats, KNNBruteDist
  unfoldable pub knn_brute_prefab : ℕ → PrefabArgs F V W → Option (Option (List ℕ))
  unfolding prefab_ok score_generator knn_brute
  knn_brute_prefab fuel args =
      if not (prefab_ok args)
      then some none
      else knn_brute fuel (record {
        score_generator = score_generator args.query args.pool_generator args.distance_func;
        k = args.k;
        ascending = args.ascending;
      })

module _ {ℓ} {F : Type ℓ} ⦃f : Float F⦄ where
  -- KNNBruteFloats: the query is a slice, and so is what the pool yields.
  knn_brute_floats : ℕ → PrefabArgs F (List F) (List F) → Option (Option (List ℕ))
  unfolding knn_brute_prefab
  knn_brute_floats fuel args = knn_brute_prefab fuel args

  floats_args :
      (List F → List F → F × Bool)
      → Bool
      → Option (List F)
      → Option (ℕ → List F × Bool)
      → ℤ
      → PrefabArgs F (List F) (List F)
  floats_args distance ascending query pool k = record {
    query = query;
    pool_generator = pool;
    distance_func = some distance;
    k = k;
    ascending = ascending;
  }

  module _ (fuel : ℕ) (query : Option (List F)) (pool : Option (ℕ → List F × Bool)) (k : ℤ) where
    unfoldable pub knn_euc_floats : Option (Option (List ℕ))
    unfolding floats_args knn_brute_floats
    knn_euc_floats = knn_brute_floats fuel (floats_args Distf.euclidean_distance true query pool k)

    unfoldable pub kfn_euc_floats : Option (Option (List ℕ))
    unfolding floats_args knn_brute_floats
    kfn_euc_floats = knn_brute_floats fuel (floats_args Distf.euclidean_distance false query pool k)

    unfoldable pub knn_cos_floats : Option (Option (List ℕ))
    unfolding floats_args knn_brute_floats
    knn_cos_floats = knn_brute_floats fuel (floats_args Distf.cosine_similarity false query pool k)

    unfoldable pub kfn_cos_floats : Option (Option (List ℕ))
    unfolding floats_args knn_brute_floats
    kfn_cos_floats = knn_brute_floats fuel (floats_args Distf.cosine_similarity true query pool k)

  -- The closures of the four searches over Distancers, with their nil checks.
  unfoldable pub euclidean_of : SafeVec F → Option (SafeVec F) → F × Bool
  euclidean_of d1 none = (f.nought, false)
  euclidean_of d1 (some d2) = SafeVec.euclidean_distance d1 (some (as_distancer d2))

  unfoldable pub cosine_of : SafeVec F → Option (SafeVec F) → F × Bool
  cosine_of d1 none = (f.nought, false)
  cosine_of d1 (some d2) = (SafeVec.cosine_similarity d1 (some (as_distancer d2))).0

  knn_brute_dist : ℕ → PrefabArgs F (SafeVec F) (Option (SafeVec F)) → Option (Option (List ℕ))
  unfolding knn_brute_prefab
  knn_brute_dist fuel args = knn_brute_prefab fuel args

  dist_args :
      (SafeVec F → Option (SafeVec F) → F × Bool)
      → Bool
      → Option (SafeVec F)
      → Option (ℕ → Option (SafeVec F) × Bool)
      → ℤ
      → PrefabArgs F (SafeVec F) (Option (SafeVec F))
  dist_args distance ascending query pool k = record {
    query = query;
    pool_generator = pool;
    distance_func = some distance;
    k = k;
    ascending = ascending;
  }

  module _ (fuel : ℕ) (query : Option (SafeVec F)) (pool : Option (ℕ → Option (SafeVec F) × Bool))
      (k : ℤ) where
    unfoldable pub knn_euc_dist : Option (Option (List ℕ))
    unfolding dist_args knn_brute_dist
    knn_euc_dist = knn_brute_dist fuel (dist_args euclidean_of true query pool k)

    unfoldable pub kfn_euc_dist : Option (Option (List ℕ))
    unfolding dist_args knn_brute_dist
    kfn_euc_dist = knn_brute_dist fuel (dist_args euclidean_of false query pool k)

    unfoldable pub knn_cos_dist : Option (Option (List ℕ))
    unfolding dist_args knn_brute_dist
    knn_cos_dist = knn_brute_dist fuel (dist_args cosine_of false query pool k)

    unfoldable pub kfn_cos_dist : Option (Option (List ℕ))
    unfolding dist_args knn_brute_dist
    kfn_cos_dist = knn_brute_dist fuel (dist_args cosine_of true query pool k)
