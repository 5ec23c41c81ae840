-- ===== src/Requestman/Query/Pipeline/Fed.antt =====
-- A whole request with the goroutines that feed its pipeline.
use mathlib.Core.List.Perm
use ddrop.Base.{ℕ, ◌<◌, ◌≡◌, Bool, true, Option, List, [], items_of}
use ddrop.Base.Int.{pos_part}
use ddrop.Float.{Float, IsStrict, IsWeak}
use ddrop.Ranking.TopK.{TopK, TopK-perm}
use ddrop.Ranking.Trim.{set-perm}
use ddrop.Ranking.Merge.{numbers}
use ddrop.Knnc.Items.{ScoreItem, score_slot, trim_items}
use ddrop.Knnc.Pipeline.{Faucet, new_faucet, FeedRun}
use ddrop.Knnc.Pipeline.Feeding.{closed-complete}
use ddrop.Knnc.Stages.Composition.{kept_items-perm}
use ddrop.Requestman.Query.{KnnArgs, to_filter_func, empty_result, consume_batches}
use ddrop.Requestman.Query.Pipeline.{candidates, AreNumbered, PipelineRun, PipelineRun-TopK}

module _ {ℓ κ} {F : Type ℓ} {D : Type κ} ⦃f : Float F⦄ (is_number : F → Bool) (r : KnnArgs F)
    (elapsed : ℕ) (map_func : D → ScoreItem F D × Bool) where
  -- From the scanners to the answer: where one goroutine adds the scanners and closes the pipeline
  -- behind them, no signal stops what feeds it or its stages, and the loop of consume takes all
  -- batches, then, however all goroutines are scheduled, the requester gets the ranking of the K best
  -- score items of all vectors of the added scanners that are not nil, have a score and pass the
  -- filter, provided that these scores are numbers.
  pub fed-TopK :
      (laws : IsStrict F) (weak : IsWeak F is_number) (p : Faucet (Option D))
      (batches : List (List (ScoreItem F D)))
      → FeedRun true new_faucet p
      → p.input_closed ≡ true
      → p.abandoned ≡ []
      → 0 < pos_part r.k
      → AreNumbered is_number (candidates r map_func (items_of p.accepted))
      → PipelineRun r elapsed map_func p.input batches
      → (consume_batches r (empty_result r) batches).1 ≡ true
      → TopK score_slot r.ascending
          (pos_part r.k)
          (candidates r map_func (items_of p.accepted))
          (trim_items (consume_batches r (empty_result r) batches).0)
  fed-TopK laws weak p batches feed closed unbroken has_slot n run whole =
      let fed =
        kept_items-perm map_func (to_filter_func r) (closed-complete p feed closed unbroken) in
      let n_fed = set-perm (numbers score_slot is_number r.ascending) (Perm.symm fed) n in
      TopK-perm score_slot fed (
        PipelineRun-TopK is_number r elapsed map_func laws weak p.input batches has_slot n_fed run
          whole)
