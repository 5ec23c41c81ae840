-- ===== src/Knnc/Stages/Together.antt =====
-- The workers of MergeStage together keep the K best of all that they receive.
use mathlib.Core.List.Perm
use ddrop.Base.{
  ◌<◌, ◌≡◌, sym, subst, Bool, true, List, [], ◌∷◌, ◌++◌, map, items_of, items_of-append, All,
  All-split,
}
use ddrop.Base.Int.{pos_part}
use ddrop.Float.{Float, IsStrict, IsWeak}
use ddrop.Ranking.Trim.{set-perm}
use ddrop.Ranking.Merge.{
  numbers, AreNumbers, Reduced, Reduced-none, Reduced-append, Reduced-perm, TopK-Reduced,
}
use ddrop.Knnc.Items.{ScoreItem, score_slot}
use ddrop.Knnc.Stages.{MergeStagePartialArgs, merge_worker}
use ddrop.Knnc.Stages.Merging.{Merged, merge_worker-Merged}
use ddrop.Knnc.Stages.Threads.{MergeRun, Interleaved-perm, Interleaved-items}

module _ {ℓ κ} {F : Type ℓ} {D : Type κ} ⦃f : Float F⦄ (is_number : F → Bool)
    (args : MergeStagePartialArgs) where
  -- The scores of the items are numbers.
  abbrev Scored : List (ScoreItem F D) → Type 0
  Scored items = AreNumbers score_slot is_number args.ascending items

  abbrev AreSet : List (ScoreItem F D) → Type 0
  AreSet items = All (λ x. x.set ≡ true) items

  abbrev Keeps : List (ScoreItem F D) → List (ScoreItem F D) → Type (ℓ ⊔ κ)
  Keeps inputs kept = Reduced score_slot is_number args.ascending (pos_part args.k) inputs kept

  module _ (laws : IsStrict F) (weak : IsWeak F is_number) (has_slot : 0 < pos_part args.k) where
    Merged-Keeps :
        {items : List (ScoreItem F D)} {batches : List (List (ScoreItem F D))}
        → Merged args items batches
        → Scored items
        → Keeps items (items_of batches)
    Merged-Keeps Merged.nothing n =
        Reduced-none score_slot is_number args.ascending (pos_part args.k)
    Merged-Keeps (Merged.next_batch {items} {batches} chunk batch filled ranked rest) n =
        let (n_chunk, n_items) = All-split (λ x. is_number x.score ≡ true) chunk items n in
        Reduced-append score_slot is_number args.ascending
          (TopK-Reduced score_slot is_number args.ascending weak (pos_part args.k) chunk batch
            n_chunk ranked)
          (Merged-Keeps rest n_items)

    workers-Keep :
        (received : List (List (ScoreItem F D)))
        → AreSet (items_of received)
        → Scored (items_of received)
        → Keeps (items_of received) (items_of (items_of (map (merge_worker args) received)))
    workers-Keep [] held n = Reduced-none score_slot is_number args.ascending (pos_part args.k)
    workers-Keep (items ∷ received) held n =
        let (held_items, held_rest) =
          All-split (λ x. x.set ≡ true) items (items_of received) held in
        let (n_items, n_rest) =
          All-split (λ x. is_number x.score ≡ true) items (items_of received) n in
        let one = Merged-Keeps (merge_worker-Merged args laws has_slot items held_items) n_items in
        subst (Keeps (items ++ items_of received))
          (sym (
            items_of-append (merge_worker args items)
              (items_of (map (merge_worker args) received))))
          (Reduced-append score_slot is_number args.ascending one
            (workers-Keep received held_rest n_rest))

    -- However the workers of MergeStage share the input and in whatever order they send, the batches
    -- keep the K best of the input.
    pub MergeRun-Keeps :
        (inputs : List (ScoreItem F D)) (batches : List (List (ScoreItem F D)))
        → AreSet inputs
        → Scored inputs
        → MergeRun args inputs batches
        → Keeps inputs (items_of batches)
    MergeRun-Keeps inputs batches held n run =
        let dealt = Interleaved-perm run.dealt in
        Reduced-perm score_slot is_number args.ascending (Perm.symm dealt)
          (Perm.symm (Interleaved-items run.sent))
          (workers-Keep run.received (set-perm score_slot dealt held)
            (set-perm (numbers score_slot is_number args.ascending) dealt n))
