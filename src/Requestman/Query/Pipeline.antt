-- ===== src/Requestman/Query/Pipeline.antt =====
-- A whole request: the stages that toPipeline connects, with the loop of consume at their end.
pub mod Fed
use mathlib.Core.List.Perm
use ddrop.Base.{
  ℕ, suc, ◌<◌, ◌≡◌, subst, inl, inr, Bool, true, Option, List, [], arith, items_of, All, All-split,
}
use ddrop.Base.Int.{pos_part}
use ddrop.Float.{Float, IsStrict, IsWeak}
use ddrop.Ranking.TopK.{TopK}
use ddrop.Ranking.Trim.{set-perm}
use ddrop.Ranking.Merge.{numbers, Reduced, Reduced-perm, Reduced-TopK}
use ddrop.Knnc.Items.{ScoreItem, score_slot, trim_items}
use ddrop.Knnc.Stages.{Pool, start_pool, Step, Run, map_outcome, filter_outcome}
use ddrop.Knnc.Stages.Composition.{kept_items, kept_items-AreSet, stages-deliver}
use ddrop.Knnc.Stages.Threads.{MergeRun}
use ddrop.Knnc.Stages.Together.{MergeRun-Keeps}
use ddrop.Requestman.Query.{KnnArgs, to_merge_args, to_filter_func, empty_result, consume_batches}
use ddrop.Requestman.Query.Results.{consume_batches-Answer}

-- A run of the stages of a pipeline over what was scanned, to its end with no signal. The map stage
-- uses the given score function; the others use the functions and arguments of the request.
pub record PipelineRun {ℓ κ} {F : Type ℓ} {D : Type κ} ⦃f : Float F⦄ (r : KnnArgs F) (elapsed : ℕ)
    (map_func : D → ScoreItem F D × Bool) (scanned : List (Option D))
    (batches : List (List (ScoreItem F D))) : Type (ℓ ⊔ κ) where
  pub other_mappers : ℕ
  pub mapped : Pool (Option D) (ScoreItem F D)
  pub map_run : Run (map_outcome map_func) (start_pool scanned (suc other_mappers)) mapped
  pub map_unbroken : mapped.dropped ≡ []
  pub map_ended : (p : Pool (Option D) (ScoreItem F D)) → ¬ Step (map_outcome map_func) mapped p
  pub other_filters : ℕ
  pub filtered : Pool (ScoreItem F D) (ScoreItem F D)
  pub filter_run :
      Run
        (filter_outcome (to_filter_func r))
        (start_pool mapped.output (suc other_filters))
        filtered
  pub filter_unbroken : filtered.dropped ≡ []
  pub filter_ended :
      (p : Pool (ScoreItem F D) (ScoreItem F D))
      → ¬ Step (filter_outcome (to_filter_func r)) filtered p
  pub merge_run : MergeRun (to_merge_args r elapsed) filtered.output batches

-- The score items that a request is about.
abbrev pub candidates {ℓ κ} :
    {F : Type ℓ} {D : Type κ}
    → ⦃f : Float F⦄ → KnnArgs F
    → (D → ScoreItem F D × Bool)
    → List (Option D)
    → List (ScoreItem F D)
candidates r map_func scanned = kept_items map_func (to_filter_func r) scanned

abbrev pub AreNumbered {ℓ κ} :
    {F : Type ℓ} {D : Type κ} → (F → Bool) → List (ScoreItem F D) → Type 0
AreNumbered is_number items = All (λ x. is_number x.score ≡ true) items

module _ {ℓ κ} {F : Type ℓ} {D : Type κ} ⦃f : Float F⦄ (is_number : F → Bool) (r : KnnArgs F)
    (elapsed : ℕ) (map_func : D → ScoreItem F D × Bool) where
  -- The batches of a run keep the K best of the candidates.
  PipelineRun-Keeps :
      (laws : IsStrict F) (weak : IsWeak F is_number) (scanned : List (Option D))
      (batches : List (List (ScoreItem F D)))
      → 0 < pos_part r.k
      → AreNumbered is_number (candidates r map_func scanned)
      → PipelineRun r elapsed map_func scanned batches
      → Reduced score_slot is_number r.ascending
          (pos_part r.k)
          (candidates r map_func scanned)
          (items_of batches)
  unfolding to_merge_args
  PipelineRun-Keeps laws weak scanned batches has_slot n run =
      let delivered =
        stages-deliver map_func (to_filter_func r) scanned run.other_mappers run.other_filters
          run.mapped run.filtered run.map_run run.map_unbroken run.map_ended run.filter_run
          run.filter_unbroken run.filter_ended in
      let back = Perm.symm delivered in
      let held = set-perm score_slot back (kept_items-AreSet map_func (to_filter_func r) scanned) in
      let n_filtered = set-perm (numbers score_slot is_number r.ascending) back n in
      Reduced-perm score_slot is_number r.ascending delivered (Perm.refl (items_of batches)) (
        MergeRun-Keeps is_number (to_merge_args r elapsed) laws weak has_slot run.filtered.output
          batches held n_filtered run.merge_run)

  -- However the workers of all stages are scheduled: where no signal stops the stages and the loop of
  -- consume takes all batches, what it sends to the requester is the ranking of the K best score items
  -- of the scanned vectors that are not nil, have a score and pass the filter, provided that these
  -- scores are numbers.
  pub PipelineRun-TopK :
      (laws : IsStrict F) (weak : IsWeak F is_number) (scanned : List (Option D))
      (batches : List (List (ScoreItem F D)))
      → 0 < pos_part r.k
      → AreNumbered is_number (candidates r map_func scanned)
      → PipelineRun r elapsed map_func scanned batches
      → (consume_batches r (empty_result r) batches).1 ≡ true
      → TopK score_slot r.ascending
          (pos_part r.k)
          (candidates r map_func scanned)
          (trim_items (consume_batches r (empty_result r) batches).0)
  PipelineRun-TopK laws weak scanned batches has_slot n run whole =
      let kept = PipelineRun-Keeps laws weak scanned batches has_slot n run in
      let all_set =
        set-perm score_slot (Perm.symm kept.parts)
          (kept_items-AreSet map_func (to_filter_func r) scanned) in
      let held = (All-split (λ x. x.set ≡ true) kept.lost (items_of batches) all_set).1 in
      let out = consume_batches r (empty_result r) batches in
      let answer = consume_batches-Answer laws r batches held in
      elim answer.ending [
        | inr (stopped, _) ↦ absurd (ground arith)
        | inl (_, all_taken) ↦
            Reduced-TopK score_slot is_number r.ascending laws (pos_part r.k)
              (candidates r map_func scanned) (items_of batches) (trim_items out.0) n kept
              (subst (λ l. TopK score_slot r.ascending (pos_part r.k) l (trim_items out.0))
                all_taken answer.ranked)
      ]
