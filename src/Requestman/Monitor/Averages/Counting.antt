-- ===== src/Requestman/Monitor/Averages/Counting.antt =====
-- The number of requests that the monitor counts.
use ddrop.Base.{
  ℕ, ◌+◌, ◌≡◌, refl, sym, ap, ◌∙◌, inl, inr, ◌⊎◌, true, false, subst, List, [], ◌∷◌, arith, All,
  Bool-cases,
}
use ddrop.Base.Int.{ℤ, pos, negsuc, pos_part, ◌+ℤ◌}
use ddrop.Float.{Float}
use ddrop.Requestman.Monitor.{
  Timed, TimedLinkedList, KnnMonItemAvg, time_range, merge_knn_mon_item_avg,
}
use ddrop.Requestman.Monitor.Averages.{no_average, merge_items, average_of, average}

module _ {ℓ} {F : Type ℓ} where
  -- An item's number of requests is not below 0, and is 0 where the item is not set.
  abbrev pub IsCounted : KnnMonItemAvg F → Type 0
  IsCounted ia = (ia.n ≡ pos (pos_part ia.n)) × ((ia.is_set ≡ true) ⊎ (pos_part ia.n ≡ 0))

  abbrev pub AllCounted : List (Timed (KnnMonItemAvg F)) → Type 0
  AllCounted items = All (λ t. IsCounted t.inner) items

  abbrev pub count : List (Timed (KnnMonItemAvg F)) → ℕ
  count [] = 0
  count (item ∷ items) = pos_part item.inner.n + count items

pub plus_pos :
    (x y : ℤ) → x ≡ pos (pos_part x) → y ≡ pos (pos_part y) → x +ℤ y ≡ pos (pos_part x + pos_part y)
unfolding ◌+ℤ◌
plus_pos (pos a) (pos b) e e' = ground arith
plus_pos (pos a) (negsuc b) e e' = cc
plus_pos (negsuc a) y e e' = cc

module _ {ℓ} {F : Type ℓ} ⦃f : Float F⦄ where
  merge_cases :
      (a b : KnnMonItemAvg F)
      → let m = merge_knn_mon_item_avg a b in
        ((a.is_set ≡ false) × (m ≡ b))
        ⊎ (((b.is_set ≡ false) × (m ≡ a)) ⊎ ((m.is_set ≡ true) × (m.n ≡ a.n +ℤ b.n)))
  unfolding merge_knn_mon_item_avg
  merge_cases a b = elim (Bool-cases a.is_set) [
    | inr unset ↦ inl (unset, rw unset refl)
    | inl set ↦ elim (Bool-cases b.is_set) [
      | inr unset ↦ inr (inl (unset, rw (set, unset) refl))
      | inl set' ↦ inr (inr (rw (set, set') refl, rw (set, set') refl))
    ]
  ]

  unset-none : (a : KnnMonItemAvg F) → IsCounted a → a.is_set ≡ false → pos_part a.n ≡ 0
  unset-none a (k, inl set) e = absurd cc
  unset-none a (k, inr nothing) e = nothing

  merge-n :
      (a b : KnnMonItemAvg F)
      → IsCounted a
      → IsCounted b
      → let m = merge_knn_mon_item_avg a b in
        IsCounted m × (pos_part m.n ≡ pos_part a.n + pos_part b.n)
  merge-n a b ka kb = elim (merge_cases a b) [
    | inl (unset, e) ↦ (
      subst IsCounted (sym e) kb,
      ap (λ m. pos_part m.n) e ∙ omega (arith, unset-none a ka unset),
    )
    | inr (inl (unset, e)) ↦ (
      subst IsCounted (sym e) ka,
      ap (λ m. pos_part m.n) e ∙ omega (arith, unset-none b kb unset),
    )
    | inr (inr (set, e)) ↦
        let sum = e ∙ plus_pos a.n b.n ka.0 kb.0 in
        ((sum ∙ ap (λ z. pos (pos_part z)) (sym sum), inl set), ap pos_part sum)
  ]

  skipped :
      (result : KnnMonItemAvg F) (item : Timed (KnnMonItemAvg F))
      (items : List (Timed (KnnMonItemAvg F)))
      → item.inner.is_set ≡ false
      → merge_items result items ≡ merge_items result (item ∷ items)
  unfolding merge_items
  skipped result item items unset = rw unset refl

  merged :
      (result : KnnMonItemAvg F) (item : Timed (KnnMonItemAvg F))
      (items : List (Timed (KnnMonItemAvg F)))
      → item.inner.is_set ≡ true
      → merge_items (merge_knn_mon_item_avg result item.inner) items
        ≡ merge_items result (item ∷ items)
  unfolding merge_items
  merged result item items set = rw set refl

  -- An item that counts n requests.
  abbrev Counts : ℕ → KnnMonItemAvg F → Type 0
  Counts n m = IsCounted m × (pos_part m.n ≡ n)

  merge_items-n :
      (result : KnnMonItemAvg F) (items : List (Timed (KnnMonItemAvg F)))
      → IsCounted result
      → AllCounted items
      → Counts (pos_part result.n + count items) (merge_items result items)
  merge_items-n result [] k h = unfold merge_items in (k, omega arith)
  merge_items-n result (item ∷ items) k (ki, h) =
      let (km, sum) = merge-n result item.inner k ki in
      let n = pos_part result.n + count (item ∷ items) in
      let (kept, same) = merge_items-n result items k h in
      let (added, more) = merge_items-n (merge_knn_mon_item_avg result item.inner) items km h in
      elim (Bool-cases item.inner.is_set) [
        | inl set ↦
            subst (Counts n) (merged result item items set) (added, more ∙ omega (arith, sum))
        | inr unset ↦
            subst (Counts n) (skipped result item items unset)
              (kept, same ∙ omega (arith, unset-none item.inner ki unset))
      ]

  average_of-n :
      (items : List (Timed (KnnMonItemAvg F)))
      → AllCounted items
      → Counts (count items) (average_of items)
  unfolding average_of
  average_of-n [] h = ((refl, inr refl), refl)
  average_of-n (item ∷ items) (k, h) = merge_items-n item.inner items k h

  -- Where no item of the list counts a negative number of requests, and none that is not set counts
  -- any, the average over a period counts just the requests that the links of its range count.
  pub average-n :
      (averages : TimedLinkedList (KnnMonItemAvg F)) (start end now later : ℕ)
      → AllCounted (time_range no_average averages start end now).0
      → let result = (average averages start end now later).0 in
        IsCounted result
        × (pos_part result.n ≡ count (time_range no_average averages start end now).0)
  unfolding average
  average-n averages start end now later h =
      average_of-n (time_range no_average averages start end now).0 h
