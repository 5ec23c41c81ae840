-- ===== src/Knnc/Stages/Merging.antt =====
-- What a worker of MergeStage sends of the items that it receives.
use mathlib.Core.List.{append_assoc, append-nil}
use ddrop.Base.{
  ℕ, ◌+◌, ◌%◌, ◌<◌, ◌≡◌, refl, sym, ◌∙◌, inl, inr, true, false, List, [], ◌∷◌, ◌++◌, arith, length,
  length-replicate, All, All-append, All-replicate, ◌==◌, Bool-cases, subst,
}
use ddrop.Base.Int.{pos_part}
use ddrop.Float.{Float, IsStrict}
use ddrop.Ranking.{insert_all}
use ddrop.Ranking.TopK.{TopK, insert_all-TopK, length-insert_all, insert_all-append}
use ddrop.Knnc.Items.{ScoreItem, bubble, score_slot, trim_items}
use ddrop.Knnc.Stages.{MergeStagePartialArgs, fresh_items, try_send, merge_loop, merge_worker}

module _ {ℓ κ} {F : Type ℓ} {D : Type κ} ⦃f : Float F⦄ (args : MergeStagePartialArgs) where
  -- The items fall into chunks, one for each batch: the batch ranks the K best of its chunk.
  pub data Merged : List (ScoreItem F D) → List (List (ScoreItem F D)) → Type (ℓ ⊔ κ) where
    nothing : Merged [] []
    next_batch :
        {items : List (ScoreItem F D)} {batches : List (List (ScoreItem F D))}
        (chunk batch : List (ScoreItem F D))
        → 0 < length chunk
        → TopK score_slot args.ascending (pos_part args.k) chunk batch
        → Merged items batches
        → Merged (chunk ++ items) (batch ∷ batches)

  Merged-append :
      {xs ys : List (ScoreItem F D)} {bs cs : List (List (ScoreItem F D))}
      → Merged xs bs
      → Merged ys cs
      → Merged (xs ++ ys) (bs ++ cs)
  Merged-append Merged.nothing q = q
  Merged-append {ys = ys} {cs = cs}
        (Merged.next_batch {items} {batches} chunk batch filled ranked p) q =
      subst (λ l. Merged l (batch ∷ (batches ++ cs))) (sym (append_assoc chunk items ys))
        (Merged.next_batch chunk batch filled ranked (Merged-append p q))

  abbrev merged_items : List (ScoreItem F D) → List (ScoreItem F D)
  merged_items items = insert_all score_slot (fresh_items args) items args.ascending

  merged_items-none : merged_items [] ≡ fresh_items args
  unfolding insert_all
  merged_items-none = refl

  module _ (laws : IsStrict F) (has_slot : 0 < pos_part args.k) where
    merged_items-TopK :
        (items : List (ScoreItem F D))
        → All (λ x. x.set ≡ true) items
        → TopK score_slot args.ascending (pos_part args.k) items (trim_items (merged_items items))
    merged_items-TopK items held =
        subst (λ n. TopK score_slot args.ascending n items (trim_items (merged_items items)))
          (length-replicate (pos_part args.k) _)
          (insert_all-TopK score_slot laws (fresh_items args) items args.ascending
            (All-replicate (λ y. y.set ≡ false) (pos_part args.k) _ refl) held)

    length-merged_items :
        (items : List (ScoreItem F D)) → length (merged_items items) ≡ pos_part args.k
    length-merged_items items =
        length-insert_all score_slot (fresh_items args) items args.ascending
        ∙ length-replicate (pos_part args.k) _

    try_send-some :
        (items : List (ScoreItem F D))
        → 0 < length items
        → All (λ x. x.set ≡ true) items
        → try_send (merged_items items) ≡ trim_items (merged_items items) ∷ []
    unfolding try_send
    try_send-some items filled held =
        let size = (merged_items-TopK items held).size in
        ground (arith, size, length-merged_items items)

    try_send-none : try_send (merged_items []) ≡ []
    unfolding try_send
    try_send-none = ground (arith, (merged_items-TopK [] tt).size)

    try_send-Merged :
        (items : List (ScoreItem F D))
        → All (λ x. x.set ≡ true) items
        → Merged items (try_send (merged_items items))
    try_send-Merged [] held = subst (Merged []) (sym try_send-none) Merged.nothing
    try_send-Merged (x ∷ xs) held =
        subst (Merged (x ∷ xs)) (sym (try_send-some (x ∷ xs) (omega arith) held)) (
          subst (λ l. Merged l (trim_items (merged_items (x ∷ xs)) ∷ [])) (append-nil (x ∷ xs))
            (Merged.next_batch (x ∷ xs) _ (omega arith) (merged_items-TopK (x ∷ xs) held)
              Merged.nothing))

    -- The loop, with the items of the current chunk.
    merge_loop-Merged :
        (seen items : List (ScoreItem F D)) (i : ℕ)
        → All (λ x. x.set ≡ true) seen
        → All (λ x. x.set ≡ true) items
        → Merged (seen ++ items) (merge_loop args (merged_items seen) i items)
    unfolding merge_loop
    merge_loop-Merged seen [] i held held' =
        subst (λ l. Merged l (try_send (merged_items seen))) (sym (append-nil seen))
          (try_send-Merged seen held)
    merge_loop-Merged seen (x ∷ xs) i held (set_x, held') =
        let seen' = seen ++ (x ∷ []) in
        let now_held = All-append (λ y. y.set ≡ true) seen (x ∷ []) held (set_x, tt) in
        let buffer : merged_items seen' ≡ bubble (merged_items seen) x args.ascending =
          insert_all-append score_slot (fresh_items args) seen (x ∷ []) args.ascending
          ∙ unfold insert_all in refl in
        let order = append_assoc seen (x ∷ []) xs in
        elim (Bool-cases (i % pos_part args.send_interval == 0)) [
          | inl e ↦
              rw (e, ← order, ← buffer)
                (Merged-append (try_send-Merged seen' now_held) (
                  subst (λ b. Merged xs (merge_loop args b (i + 1) xs)) merged_items-none
                    (merge_loop-Merged [] xs (i + 1) tt held')))
          | inr e ↦ rw (e, ← order, ← buffer) (merge_loop-Merged seen' xs (i + 1) now_held held')
        ]

    -- Where K is positive, a worker that receives set items, and that no signal stops, cuts them into
    -- non-empty chunks in the order in which they come and sends for each chunk, in this order, the
    -- ranking of its K best items.
    pub merge_worker-Merged :
        (items : List (ScoreItem F D))
        → All (λ x. x.set ≡ true) items
        → Merged items (merge_worker args items)
    unfolding merge_worker
    merge_worker-Merged items held =
        subst (λ b. Merged items (merge_loop args b 1 items)) merged_items-none
          (merge_loop-Merged [] items 1 tt held)
