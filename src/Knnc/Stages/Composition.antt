-- ===== src/Knnc/Stages/Composition.antt =====
-- MapStage with a FilterStage behind it, as the pipeline of pkg/knnc/pipeline.go connects them.
use mathlib.Core.List.{filter_map}
use mathlib.Core.List.Perm
use ddrop.Base.{
  All, ℕ, suc, ◌≡◌, refl, ap, inl, inr, Bool, true, ◌&&◌, Option, none, some, List, [], ◌∷◌, Perm,
  if◌then◌else◌, Bool-cases, subst,
}
use ddrop.Knnc.Items.{ScoreItem}
use ddrop.Knnc.Stages.{Pool, start_pool, Step, Run, map_outcome, filter_outcome}
use ddrop.Knnc.Stages.Delivery.{Run-complete}

module _ {ℓ κ} {F : Type ℓ} {D : Type κ} (map_func : D → ScoreItem F D × Bool)
    (filter_func : ScoreItem F D → Bool) where
  -- The score items of the scanned vectors that are not nil, have a score and pass the filter.
  unfoldable pub kept_items : List (Option D) → List (ScoreItem F D)
  kept_items [] = []
  kept_items (none ∷ scanned) = kept_items scanned
  kept_items (some d ∷ scanned) =
      let (item, ok) = map_func d in
      let scored = record item { distancer = some d; set = true } in
      let rest = kept_items scanned in if ok && filter_func scored then scored ∷ rest else rest

  unfoldable pub kept_items-AreSet :
      (scanned : List (Option D)) → All (λ x. x.set ≡ true) (kept_items scanned)
  unfolding kept_items
  kept_items-AreSet [] = tt
  kept_items-AreSet (none ∷ scanned) = kept_items-AreSet scanned
  kept_items-AreSet (some d ∷ scanned) =
      let scored = record (map_func d).0 { distancer = some d; set = true } in
      elim (Bool-cases ((map_func d).1 && filter_func scored)) [
        | inl keep ↦ rw keep (refl, kept_items-AreSet scanned)
        | inr drop ↦ rw drop (kept_items-AreSet scanned)
      ]

  stages-eq-kept :
      (scanned : List (Option D))
      → filter_map (filter_outcome filter_func) (filter_map (map_outcome map_func) scanned)
        ≡ kept_items scanned
  unfolding filter_map kept_items map_outcome filter_outcome
  stages-eq-kept [] = refl
  stages-eq-kept (none ∷ scanned) = stages-eq-kept scanned
  stages-eq-kept (some d ∷ scanned) =
      let scored = record (map_func d).0 { distancer = some d; set = true } in
      elim (Bool-cases (map_func d).1) [
        | inr bad ↦ rw bad (stages-eq-kept scanned)
        | inl good ↦ elim (Bool-cases (filter_func scored)) [
          | inl keep ↦ rw (good, keep) (ap (◌∷◌ scored) (stages-eq-kept scanned))
          | inr drop ↦ rw (good, drop) (stages-eq-kept scanned)
        ]
      ]

  pub kept_items-perm :
      {xs ys : List (Option D)} → Perm xs ys → Perm (kept_items xs) (kept_items ys)
  kept_items-perm {xs} {ys} p =
      subst (λ l. Perm l (kept_items ys)) (stages-eq-kept xs)
        (subst
          (Perm (filter_map (filter_outcome filter_func) (filter_map (map_outcome map_func) xs)))
          (stages-eq-kept ys)
          (Perm.filter_map (filter_outcome filter_func) (Perm.filter_map (map_outcome map_func) p)))

  -- Where a MapStage and then a FilterStage that reads what the first one sent come to an end without
  -- a signal, each with a worker at least, the second has sent, in some order, just the score items
  -- of the scanned vectors that are not nil, have a score and pass the filter.
  pub stages-deliver :
      (scanned : List (Option D)) (m n : ℕ) (p : Pool (Option D) (ScoreItem F D))
      (q : Pool (ScoreItem F D) (ScoreItem F D))
      → Run (map_outcome map_func) (start_pool scanned (suc m)) p
      → p.dropped ≡ []
      → ((r : Pool (Option D) (ScoreItem F D)) → ¬ Step (map_outcome map_func) p r)
      → Run (filter_outcome filter_func) (start_pool p.output (suc n)) q
      → q.dropped ≡ []
      → ((r : Pool (ScoreItem F D) (ScoreItem F D)) → ¬ Step (filter_outcome filter_func) q r)
      → Perm q.output (kept_items scanned)
  stages-deliver scanned m n p q r unbroken stuck r' unbroken' stuck' =
      subst (Perm q.output) (stages-eq-kept scanned) (
        Perm.trans (Run-complete (filter_outcome filter_func) p.output n q r' unbroken' stuck') (
          Perm.filter_map (filter_outcome filter_func)
            (Run-complete (map_outcome map_func) scanned m p r unbroken stuck)))
