-- ===== src/Ops/Merge.antt =====
-- What the merge of Clients.KNNEagerx returns, and what Distancer2Vec reads of a vector.
use ddrop.Base.{
  ℕ, ◌+◌, ◌≡◌, refl, sym, ap, ◌∙◌, Bool, true, false, not, ◌&&◌, inl, inr, none, some, List, [],
  ◌∷◌, ◌++◌, map, arith, length, length-replicate, replicate, All, All-append, All-replicate,
  get_elem?, StandsAt, StandsAt-start, StandsAt-next, StandsAt-elem, if◌then◌else◌, Bool-cases,
  subst,
}
use ddrop.Base.Int.{ℤ, pos, negsuc, pos_part, ltb_ℤ}
use ddrop.Float.{Float, IsStrict}
use ddrop.Mathx.SafeVec.{SafeVec, as_distancer, peek, peek_elements}
use ddrop.Ranking.{insert_all, trim}
use ddrop.Ranking.TopK.{TopK, insert_all-TopK, insert_all-append}
use ddrop.Ops.Answers.{
  KnnRespItem, KnnResp, ClientResult, SortItem, Found, sort_slot, offers, insert_results, extract,
  knn_eagerx, vec_from, distancer_to_vec,
}

pub is_nat : (n : ℕ) → ltb_ℤ (pos n) (pos 0) ≡ false
is_nat n = ground arith

is_negative : (n : ℕ) → ltb_ℤ (negsuc n) (pos 0) ≡ true
is_negative n = ground arith

module _ {ℓ} {F : Type ℓ} ⦃f : Float F⦄ where
  peek_elements-some :
      (vec : List F) (i : ℕ) (x : F)
      → get_elem? vec i ≡ some x
      → peek_elements vec (pos i) ≡ (x, true)
  unfolding peek_elements
  peek_elements-some vec i x e = rw (e, peek_elements) refl

  peek-eq :
      (v : SafeVec F) (i : ℕ) (x : F)
      → get_elem? v.vec i ≡ some x
      → ((as_distancer v).peek (pos i)).0 ≡ x
  unfolding as_distancer peek
  peek-eq v i x e = ap (λ r. r.0) (peek_elements-some v.vec i x e)

  vec_from-eq :
      (v : SafeVec F) (i : ℕ) (rest : List F)
      → StandsAt v.vec i rest
      → vec_from (as_distancer v) i (length rest) ≡ rest
  unfolding vec_from
  vec_from-eq v i [] h = refl
  vec_from-eq v i (x ∷ rest) h =
      ap (λ y. y ∷ vec_from (as_distancer v) (i + 1) (length rest))
        (peek-eq v i x (StandsAt-elem v.vec i x rest h))
      ∙ ap (◌∷◌ x) (vec_from-eq v (i + 1) rest (StandsAt-next v.vec i x rest h))

  -- Distancer2Vec of a SafeVec gives its elements back.
  pub distancer_to_vec-as_distancer : (v : SafeVec F) → distancer_to_vec (as_distancer v) ≡ v.vec
  unfolding distancer_to_vec as_distancer
  distancer_to_vec-as_distancer v = vec_from-eq v 0 v.vec (StandsAt-start v.vec)

  -- The items of all results that KNNEagerx does not skip.
  unfoldable pub all_offers : List (ClientResult (KnnResp F)) → List (SortItem F (Found F))
  all_offers [] = []
  all_offers (result ∷ results) = offers result ++ all_offers results

  insert_results-eq :
      (sort_items : List (SortItem F (Found F))) (results : List (ClientResult (KnnResp F)))
      (asc : Bool)
      → insert_results sort_items results asc
        ≡ insert_all sort_slot sort_items (all_offers results) asc
  unfolding insert_results all_offers insert_all
  insert_results-eq sort_items [] asc = refl
  insert_results-eq sort_items (result ∷ results) asc =
      insert_results-eq (insert_all sort_slot sort_items (offers result) asc) results asc
      ∙ sym (insert_all-append sort_slot sort_items (offers result) (all_offers results) asc)

  set_map :
      (result : ClientResult (KnnResp F)) (items : List (KnnRespItem F))
      → All
          (λ (x : SortItem F (Found F)). x.set ≡ true)
          (map (λ i. record { score = i.score; set = true; found = some (result, i) }) items)
  set_map result [] = tt
  set_map result (i ∷ items) = (refl, set_map result items)

  if-set :
      (b : Bool) (items : List (SortItem F (Found F)))
      → All (λ x. x.set ≡ true) items
      → All (λ x. x.set ≡ true) (if b then items else [])
  if-set true items h = h
  if-set false items h = tt

  offers-set : (result : ClientResult (KnnResp F)) → All (λ x. x.set ≡ true) (offers result)
  unfolding offers
  offers-set result =
      let ok = not result.net_failed && result.payload.ok in
      elim result.payload.knn
        as (λ o.
          let items : List (SortItem F (Found F)) = elim o [
            | none ↦ []
            | some l ↦
                if ok
                then map (λ i. record { score = i.score; set = true; found = some (result, i) }) l
                else []
          ] in
          All (λ x. x.set ≡ true) items) [ none ↦ tt | some l ↦ if-set ok _ (set_map result l) ]

  all_offers-set :
      (results : List (ClientResult (KnnResp F))) → All (λ x. x.set ≡ true) (all_offers results)
  unfolding all_offers
  all_offers-set [] = tt
  all_offers-set (result ∷ results) =
      All-append (λ x. x.set ≡ true) (offers result) (all_offers results) (offers-set result)
        (all_offers-set results)

  extract-trim :
      (items : List (SortItem F (Found F))) → extract (trim sort_slot items) ≡ extract items
  unfolding extract trim
  extract-trim [] = refl
  extract-trim (item ∷ items) = elim (Bool-cases item.set) [
    | inl e ↦ ground (arith, extract-trim items)
    | inr e ↦ ground (arith, extract-trim items)
  ]

  -- The merge into a slice of n slots.
  merged-TopK :
      (laws : IsStrict F) (n : ℕ) (asc : Bool) (results : List (ClientResult (KnnResp F)))
      → let slots : List (SortItem F (Found F)) =
          replicate n (record { score = f.nought; set = false; found = none }) in
        (kept : List (SortItem F (Found F))) × TopK sort_slot asc n (all_offers results) kept
        × (extract (insert_results slots results asc) ≡ extract kept)
  merged-TopK laws n asc results =
      let slots : List (SortItem F (Found F)) =
        replicate n (record { score = f.nought; set = false; found = none }) in
      let final = insert_all sort_slot slots (all_offers results) asc in
      (
        trim sort_slot final,
        subst (λ m. TopK sort_slot asc m (all_offers results) (trim sort_slot final))
            (length-replicate n _)
            (insert_all-TopK sort_slot laws slots (all_offers results) asc
              (All-replicate (λ y. y.set ≡ false) n _ refl) (all_offers-set results)),
        ap extract (insert_results-eq slots results asc) ∙ sym (extract-trim final),
      )

  -- KNNEagerx panics, which is none, just where K is negative; else it returns, best first, the K best
  -- of the items that the servers answered without an error, each with the address of its server.
  pub knn_eagerx-TopK :
      (laws : IsStrict F) (k : ℤ) (asc : Bool) (results : List (ClientResult (KnnResp F)))
      → (kept : List (SortItem F (Found F))) × TopK sort_slot asc
          (pos_part k)
          (all_offers results)
          kept
        × (knn_eagerx k asc results ≡ (if ltb_ℤ k (pos 0) then none else some (extract kept)))
  unfolding knn_eagerx
  knn_eagerx-TopK laws (pos n) asc results =
      let (kept, top, same) = merged-TopK laws n asc results in
      (kept, top, rw (is_nat n) (ap some same))
  knn_eagerx-TopK laws (negsuc n) asc results =
      let (kept, top, same) = merged-TopK laws 0 asc results in (kept, top, rw (is_negative n) refl)
