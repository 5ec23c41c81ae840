-- ===== src/Mathx/SafeVec/Agreement.antt =====
-- The methods of SafeVec against the functions of pkg/mathx/distf.go.
use ddrop.Base.{
  StandsAt, StandsAt-start, StandsAt-next, ℕ, ◌+◌, ◌≡◌, refl, sym, ap, ◌∙◌, Bool, true, ◌&&◌, some,
  List, [], ◌∷◌, length, get_elem?, ◌==◌, if◌then◌else◌, Bool-cases, arith, inl, inr,
}
use ddrop.Base.Int.{pos}
use ddrop.Float.{Float}
use ddrop.Mathx.Distf
use ddrop.Mathx.SafeVec.{
  SafeVec, peek, peek_elements, as_distancer, norm_of, norm_loop, euclidean_loop, dot_loop,
  euclidean_distance, cosine_similarity, root_of, over_norms, eq, iter_from, iter, at,
}

module _ {ℓ} {F : Type ℓ} ⦃f : Float F⦄ where
  StandsAt-peek :
      (v : SafeVec F) (i : ℕ) (w : F) (ws : List F)
      → StandsAt v.vec i (w ∷ ws)
      → peek v (pos i) ≡ (w, true)
  unfolding peek
  StandsAt-peek v i w ws h =
      let e : i + 0 ≡ i = omega arith in
      let found : get_elem? v.vec i ≡ some w = ap (get_elem? v.vec) (sym e) ∙ h 0 in
      rw (found, peek_elements)

  StandsAt-at :
      (vec : List F) (i : ℕ) (w : F) (ws : List F) → StandsAt vec i (w ∷ ws) → at vec i ≡ w
  StandsAt-at vec i w ws h =
      let e : i + 0 ≡ i = omega arith in
      let found : get_elem? vec i ≡ some w = ap (get_elem? vec) (sym e) ∙ h 0 in rw (found, at)

  euclidean_loop-eq-sum :
      (w : SafeVec F) (r : F) (i : ℕ) (vs ws : List F)
      → StandsAt w.vec i ws
      → length vs ≡ length ws
      → euclidean_loop (as_distancer w) r i vs ≡ some (Distf.euclidean_sum r vs ws)
  unfolding euclidean_loop as_distancer Distf.euclidean_sum
  euclidean_loop-eq-sum w r i [] [] h e = refl
  euclidean_loop-eq-sum w r i [] (y ∷ ws) h e = absurd (omega arith)
  euclidean_loop-eq-sum w r i (x ∷ vs) [] h e = absurd (omega arith)
  euclidean_loop-eq-sum w r i (x ∷ vs) (y ∷ ws) h e = rw (StandsAt-peek w i y ws h) (
      euclidean_loop-eq-sum w (f.add r (f.mul (f.sub x y) (f.sub x y))) (i + 1) vs ws
        (StandsAt-next w.vec i y ws h) (omega arith))

  dot_loop-eq-sum :
      (w : SafeVec F) (r : F) (i : ℕ) (vs ws : List F)
      → StandsAt w.vec i ws
      → length vs ≡ length ws
      → dot_loop (as_distancer w) r i vs ≡ some (Distf.dot_sum r vs ws)
  unfolding dot_loop as_distancer Distf.dot_sum
  dot_loop-eq-sum w r i [] [] h e = refl
  dot_loop-eq-sum w r i [] (y ∷ ws) h e = absurd (omega arith)
  dot_loop-eq-sum w r i (x ∷ vs) [] h e = absurd (omega arith)
  dot_loop-eq-sum w r i (x ∷ vs) (y ∷ ws) h e = rw (StandsAt-peek w i y ws h) (
      dot_loop-eq-sum w (f.add r (f.mul x y)) (i + 1) vs ws (StandsAt-next w.vec i y ws h)
        (omega arith))

  -- The Euclidean distance of two vectors by the method is that of their slices by the function,
  -- the failure on unequal dimensions included.
  pub euclidean_distance-eq :
      (v w : SafeVec F)
      → euclidean_distance v (some (as_distancer w)) ≡ Distf.euclidean_distance v.vec w.vec
  unfolding euclidean_distance Distf.euclidean_distance as_distancer root_of
  euclidean_distance-eq v w =
      ground (arith, euclidean_loop-eq-sum w f.nought 0 v.vec w.vec (StandsAt-start w.vec))

  norm_loop-eq-sum : (r : F) (vs : List F) → norm_loop r vs ≡ Distf.square_sum r vs
  unfolding norm_loop Distf.square_sum
  norm_loop-eq-sum r [] = refl
  norm_loop-eq-sum r (x ∷ vs) = norm_loop-eq-sum (f.add r (f.mul x x)) vs

  -- The cache of the norm: the norm of the slice where it is set, and a zero to add to otherwise.
  abbrev pub IsCached : SafeVec F → Type ℓ
  IsCached v = v.norm ≡ (if v.norm_set then Distf.norm v.vec else f.nought)

  -- On a vector with a valid cache, Norm returns the norm of the slice and keeps the cache valid
  -- and the elements; a second call returns the same and changes nothing.
  norm_of-IsCached :
      (v : SafeVec F)
      → IsCached v
      → let r = norm_of v in
        (r.0 ≡ Distf.norm v.vec) × IsCached r.1 × (r.1.vec ≡ v.vec) × (norm_of r.1 ≡ r)
  unfolding norm_of Distf.norm
  norm_of-IsCached v h = elim (Bool-cases v.norm_set) [
    | inl e ↦ let known = rw e at h in rw e (known, known, refl, refl)
    | inr e ↦
        let known =
          ap (λ t. f.sqrt (norm_loop t v.vec)) (rw e at h)
          ∙ ap f.sqrt (norm_loop-eq-sum f.nought v.vec) in
        rw e (known, known, refl, refl)
  ]

  -- The cosine similarity of two vectors with valid caches by the method is that of their slices
  -- by the function, both failures included; the call keeps the cache valid.
  pub cosine_similarity-eq :
      (v w : SafeVec F)
      → IsCached v
      → IsCached w
      → let r = cosine_similarity v (some (as_distancer w)) in
        (r.0 ≡ Distf.cosine_similarity v.vec w.vec) × IsCached r.1 × (r.1.vec ≡ v.vec)
  unfolding cosine_similarity as_distancer over_norms Distf.cosine_similarity
  cosine_similarity-eq v w h k =
      let (norm_v, cached, same, _) = norm_of-IsCached v h in
      let norm_w = (norm_of-IsCached w k).0 in
      ground (
        arith,
        norm_v,
        norm_w,
        cached,
        same,
        dot_loop-eq-sum w f.nought 0 v.vec w.vec (StandsAt-start w.vec),
      )

  -- Every element of the first list is equal to its fellow.
  all_eq : List F → List F → Bool
  all_eq (x ∷ xs) (y ∷ ys) = f.eq x y && all_eq xs ys
  all_eq _ _ = true

  iter_from-eq-all :
      (v : SafeVec F) (i : ℕ) (xs ys : List F)
      → StandsAt v.vec i xs
      → length xs ≡ length ys
      → iter_from (λ _ j elm. let e = f.eq (at v.vec j) elm in (e, e)) true i ys ≡ all_eq xs ys
  unfolding iter_from all_eq
  iter_from-eq-all v i [] [] h e = refl
  iter_from-eq-all v i [] (y ∷ ys) h e = absurd (omega arith)
  iter_from-eq-all v i (x ∷ xs) [] h e = absurd (omega arith)
  iter_from-eq-all v i (x ∷ xs) (y ∷ ys) h e =
      rw (StandsAt-at v.vec i x xs h) (elim (Bool-cases (f.eq x y)) [
        | inl same ↦
            rw same (iter_from-eq-all v (i + 1) xs ys (StandsAt-next v.vec i x xs h) (omega arith))
        | inr other ↦ rw other
      ])

  -- Eq holds exactly when the dimensions are equal and every element is equal to its fellow.
  eq-eq-all : (v w : SafeVec F) → eq v w ≡ (length v.vec == length w.vec) && all_eq v.vec w.vec
  unfolding eq iter
  eq-eq-all v w = ground (arith, iter_from-eq-all v 0 v.vec w.vec (StandsAt-start v.vec))
