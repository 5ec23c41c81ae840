-- ===== src/Knn/PrefabLaws.antt =====
-- The searches over vectors rank the distances of the pool's vectors, up to the first vector whose
-- distance function fails; the searches over Distancers agree with those over slices.
use mathlib.Core.Path.{fun_ext}
use ddrop.Base.{
  ℕ, ◌+◌, ◌<◌, ◌≤◌, ◌≡◌, ap, inl, inr, Bool, true, false, not, Option, none, some, List, [], ◌∷◌,
  map, arith, length, Bool-cases, if◌then◌else◌,
}
use ddrop.Base.Int.{ℤ, pos, ltb_ℤ}
use ddrop.Float.{Float, IsStrict}
use ddrop.Ranking.TopK.{TopK}
use ddrop.Mathx.Distf
use ddrop.Mathx.SafeVec.{SafeVec}
use ddrop.Mathx.SafeVec.Agreement.{IsCached, euclidean_distance-eq, cosine_similarity-eq}
use ddrop.Knn.{ResultItem, result_slot, knn_brute}
use ddrop.Knn.Brute.{Yields, numbered, knn_brute-TopK}
use ddrop.Knn.Prefabs.{
  PrefabArgs, knn_brute_prefab, knn_euc_floats, kfn_euc_floats, knn_cos_floats, kfn_cos_floats,
  knn_euc_dist, kfn_euc_dist, knn_cos_dist, kfn_cos_dist, euclidean_of, cosine_of,
}

module _ {ℓ} {F V W : Type ℓ} ⦃f : Float F⦄ where
  -- The distances up to the first vector that has none.
  pub distances : (V → W → F × Bool) → V → List W → List F
  distances distance query [] = []
  distances distance query (w ∷ ws) =
      let (score, ok) = distance query w in
      let rest = distances distance query ws in if ok then score ∷ rest else []

  length-distances-le :
      (d : V → W → F × Bool) (q : V) (ws : List W) → length (distances d q ws) ≤ length ws
  unfolding distances
  length-distances-le d q [] = omega arith
  length-distances-le d q (w ∷ ws) = ground (arith, length-distances-le d q ws)

  abbrev scores_of : (V → W → F × Bool) → V → (ℕ → W × Bool) → ℕ → F × Bool
  scores_of d q pool i = let (v, cont) = pool i in if not cont then (f.nought, cont) else d q v

  scores_of-Yields :
      (d : V → W → F × Bool) (q : V) (pool : ℕ → W × Bool) (i : ℕ) (ws : List W)
      → Yields pool i ws
      → Yields (scores_of d q pool) i (distances d q ws)
  unfolding distances
  scores_of-Yields d q pool i [] (w, e) = (f.nought, ground arith)
  scores_of-Yields d q pool i (w ∷ ws) (e, y) = elim (Bool-cases (d q w).1) [
    | inl good ↦ rw good (ground arith, scores_of-Yields d q pool (i + 1) ws y)
    | inr bad ↦ rw bad ((d q w).0, ground arith)
  ]

  abbrev pub prefab : V → (ℕ → W × Bool) → (V → W → F × Bool) → ℕ → Bool → PrefabArgs F V W
  prefab q pool d k asc = record {
    query = some q;
    pool_generator = some pool;
    distance_func = some d;
    k = pos k;
    ascending = asc;
  }

  module _ (laws : IsStrict F) where
    -- KNNBruteFloats and KNNBruteDist on a pool that yields the given vectors and stops, with k > 0:
    -- the search ends and ranks the distances from the query to the vectors up to the first one
    -- whose distance function fails; that one and all behind it are not searched.
    pub knn_brute_prefab-TopK :
        (fuel : ℕ) (q : V) (pool : ℕ → W × Bool) (d : V → W → F × Bool) (k : ℕ) (asc : Bool)
        (ws : List W)
        → length ws < fuel
        → Yields pool 0 ws
        → 0 < k
        → (ranked : List (ResultItem F)) × (knn_brute_prefab fuel (prefab q pool d k asc)
            ≡ some (some (map (λ r. r.index) ranked)))
          × TopK result_slot asc k (numbered 0 (distances d q ws)) ranked
    unfolding knn_brute_prefab
    knn_brute_prefab-TopK fuel q pool d k asc ws enough y h =
        let (ranked, e, top) =
          knn_brute-TopK laws fuel (scores_of d q pool) k asc (distances d q ws)
            (omega (arith, length-distances-le d q ws)) (scores_of-Yields d q pool 0 ws y) h in
        (ranked, ground (arith, e), top)

module _ {ℓ} {F V W V' W' : Type ℓ} ⦃f : Float F⦄ where
  -- Searches with the same scores are the same.
  prefab_congruence :
      (fuel : ℕ) (q : V) (pool : ℕ → W × Bool) (d : V → W → F × Bool) (q' : V')
      (pool' : ℕ → W' × Bool) (d' : V' → W' → F × Bool) (k : ℤ) (asc : Bool)
      → ((i : ℕ) → scores_of d q pool i ≡ scores_of d' q' pool' i)
      → let args : PrefabArgs F V W = record {
        query = some q;
        pool_generator = some pool;
        distance_func = some d;
        k = k;
        ascending = asc;
      } in
        let args' : PrefabArgs F V' W' = record {
          query = some q';
          pool_generator = some pool';
          distance_func = some d';
          k = k;
          ascending = asc;
        } in
        knn_brute_prefab fuel args ≡ knn_brute_prefab fuel args'
  unfolding knn_brute_prefab
  prefab_congruence fuel q pool d q' pool' d' k asc h =
      ap
        (λ (g : ℕ → F × Bool).
          if not (if ltb_ℤ (pos 0) k then true else false)
          then some none
          else knn_brute fuel (record { score_generator = some g; k = k; ascending = asc }))
        (fun_ext h)

module _ {ℓ} {F : Type ℓ} ⦃f : Float F⦄ where
  -- The same pool of vectors, as Distancers and as slices.
  abbrev pub dist_pool : (ℕ → SafeVec F × Bool) → ℕ → Option (SafeVec F) × Bool
  dist_pool pool i = (some (pool i).0, (pool i).1)

  abbrev pub float_pool : (ℕ → SafeVec F × Bool) → ℕ → List F × Bool
  float_pool pool i = ((pool i).0.vec, (pool i).1)

  euclidean-scores :
      (q : SafeVec F) (pool : ℕ → SafeVec F × Bool) (i : ℕ)
      → scores_of euclidean_of q (dist_pool pool) i
        ≡ scores_of Distf.euclidean_distance q.vec (float_pool pool) i
  unfolding euclidean_of
  euclidean-scores q pool i = rw (euclidean_distance-eq q (pool i).0)

  cosine-scores :
      (q : SafeVec F) (pool : ℕ → SafeVec F × Bool) (i : ℕ)
      → IsCached q
      → IsCached (pool i).0
      → scores_of cosine_of q (dist_pool pool) i
        ≡ scores_of Distf.cosine_similarity q.vec (float_pool pool) i
  unfolding cosine_of
  cosine-scores q pool i h g = rw ((cosine_similarity-eq q (pool i).0 h g).0)

  -- On a pool of vectors with valid norm caches, each of the four searches over Distancers returns
  -- what the search over slices of the same name returns on the vectors' elements, for every k.
  pub dist-eq-floats :
      (fuel : ℕ) (q : SafeVec F) (pool : ℕ → SafeVec F × Bool) (k : ℤ)
      → IsCached q
      → ((i : ℕ) → IsCached (pool i).0)
      → let vs = some (dist_pool pool) in
        let xs = some (float_pool pool) in
        (knn_euc_dist fuel (some q) vs k ≡ knn_euc_floats fuel (some q.vec) xs k)
        × (kfn_euc_dist fuel (some q) vs k ≡ kfn_euc_floats fuel (some q.vec) xs k)
        × (knn_cos_dist fuel (some q) vs k ≡ knn_cos_floats fuel (some q.vec) xs k)
        × (kfn_cos_dist fuel (some q) vs k ≡ kfn_cos_floats fuel (some q.vec) xs k)
  unfolding knn_euc_dist kfn_euc_dist knn_cos_dist kfn_cos_dist knn_euc_floats kfn_euc_floats
      knn_cos_floats kfn_cos_floats
  dist-eq-floats fuel q pool k h g =
      let euc = λ (asc : Bool).
        prefab_congruence fuel q (dist_pool pool) euclidean_of q.vec (float_pool pool)
          Distf.euclidean_distance k asc (euclidean-scores q pool) in
      let cos = λ (asc : Bool).
        prefab_congruence fuel q (dist_pool pool) cosine_of q.vec (float_pool pool)
          Distf.cosine_similarity k asc (λ i. cosine-scores q pool i h (g i)) in
      (euc true, euc false, cos false, cos true)
