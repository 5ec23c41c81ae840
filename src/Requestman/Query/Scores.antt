-- ===== src/Requestman/Query/Scores.antt =====
-- The scores that the function of toMapFunc gives, next to the functions over slices.
use ddrop.Base.{◌≡◌, refl, ap, Bool, false, List}
use ddrop.Float.{Float}
use ddrop.Mathx.Distf
use ddrop.Mathx.SafeVec.{SafeVec}
use ddrop.Mathx.SafeVec.Agreement.{IsCached, euclidean_distance-eq, cosine_similarity-eq}
use ddrop.Requestman.Query.{KnnArgs, KnnMethod, scored, to_map_func}

module _ {ℓ} {F : Type ℓ} ⦃f : Float F⦄ where
  -- The score of two slices by a method.
  abbrev pub score_of : KnnMethod → List F → List F → F × Bool
  score_of KnnMethod.euclidean_method v w = Distf.euclidean_distance v w
  score_of KnnMethod.cosine_method v w = Distf.cosine_similarity v w
  score_of (KnnMethod.other_method n) v w = (f.nought, false)

  by_method :
      (r : KnnArgs F) (m : KnnMethod) (query other : SafeVec F)
      → r.knn_method ≡ m
      → IsCached query
      → IsCached other
      → let out = to_map_func r query other in
        (out.0 ≡ scored (score_of m query.vec other.vec)) × IsCached out.1 × (out.1.vec ≡ query.vec)
  unfolding to_map_func
  by_method r KnnMethod.euclidean_method query other e h k =
      rw e (ap scored (euclidean_distance-eq query other), h, refl)
  by_method r KnnMethod.cosine_method query other e h k =
      let (same, cached, kept) = cosine_similarity-eq query other h k in
      rw e (ap scored same, cached, kept)
  by_method r (KnnMethod.other_method n) query other e h k = rw e (refl, h, refl)

  -- On vectors with valid caches, toMapFunc scores a vector by the method of the request as the
  -- functions over slices do, failures included, and fails for a method without a name; the query
  -- vector keeps its elements and its cache stays valid.
  pub to_map_func-eq :
      (r : KnnArgs F) (query other : SafeVec F)
      → IsCached query
      → IsCached other
      → let out = to_map_func r query other in
        (out.0 ≡ scored (score_of r.knn_method query.vec other.vec))
        × IsCached out.1
        × (out.1.vec ≡ query.vec)
  to_map_func-eq r query other = by_method r r.knn_method query other refl
