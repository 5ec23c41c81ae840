-- ===== src/Requestman/Monitor/Averages.antt =====
-- The rest of service/requestman/monitor.go: what is registered of a request, and the average over a
-- period. `float_of` and `floor_int` are float64(n) and int(math.Floor(x)), `c` is the constant that
-- keeps a divisor from 0.
pub mod Counting
pub mod Registering
use ddrop.Base.{
  ℕ, ◌+◌, Bool, true, false, not, Option, none, some, List, [], ◌∷◌, length, ◌==◌, if◌then◌else◌,
}
use ddrop.Base.Int.{ℤ, pos, pos_part, sub_ℕ, ◌+ℤ◌, ◌*ℤ◌, ◌/ℤ◌}
use ddrop.Float.{Float}
use ddrop.Knnc.Items.{ScoreItem, trim_items}
use ddrop.Requestman.Monitor.{
  Timed, TimedLinkedList, KnnMonItemAvg, maintain, time_range, merge_knn_mon_item_avg,
}

-- knnMonItem
pub record KnnMonItem {ℓ} (F : Type ℓ) : Type ℓ where
  pub latency : ℤ
  pub avg_score : F
  pub satisfaction : F

module _ {ℓ} {F : Type ℓ} ⦃f : Float F⦄ where
  -- KNNMonItemAvg{}
  abbrev pub no_average : KnnMonItemAvg F
  no_average = record {
    is_set = false;
    created = 0;
    span = pos 0;
    n = pos 0;
    n_failed = pos 0;
    avg_latency = pos 0;
    avg_score = f.nought;
    avg_score_no_fails = f.nought;
    avg_satisfaction = f.nought;
  }

  -- The loop of average over the links behind the first.
  pub merge_items : KnnMonItemAvg F → List (Timed (KnnMonItemAvg F)) → KnnMonItemAvg F
  unfolding merge_knn_mon_item_avg
  merge_items result [] = result
  merge_items result (item ∷ items) =
      let rest = merge_items result items in
      let merged = merge_items (merge_knn_mon_item_avg result item.inner) items in
      if not item.inner.is_set then rest else merged

  pub average_of : List (Timed (KnnMonItemAvg F)) → KnnMonItemAvg F
  unfolding merge_items
  average_of [] = no_average
  average_of (item ∷ items) = merge_items item.inner items

  -- The average over a period, and the list, which is maintained by timeRange and by average.
  unfoldable pub average :
      TimedLinkedList (KnnMonItemAvg F)
      → ℕ
      → ℕ
      → ℕ
      → ℕ
      → KnnMonItemAvg F × TimedLinkedList (KnnMonItemAvg F)
  unfolding average_of time_range maintain
  average averages start end now later =
      let (items, averages') = time_range no_average averages start end now in
      (
        average_of items,
        if length items == 0 then averages' else maintain no_average averages' later,
      )

module _ {ℓ} {F : Type ℓ} ⦃f : Float F⦄ (float_of : ℤ → F) (floor_int : F → ℤ) (c : F) where
  -- The mean latency is a quotient of integers; the number of requests is not below 0.
  unfoldable pub merge_knn_mon_item : KnnMonItemAvg F → KnnMonItem F → ℕ → KnnMonItemAvg F
  merge_knn_mon_item ia i now =
      let n = ia.n +ℤ pos 1 in
      let n_failed = ia.n_failed +ℤ floor_int (f.sub f.one i.satisfaction) in
      let total_score = f.add (f.mul ia.avg_score (float_of ia.n)) i.avg_score in
      let total_satisfaction = f.add (f.mul ia.avg_satisfaction (float_of ia.n)) i.satisfaction in
      record ia {
        is_set = true;
        created = if ia.is_set then ia.created else now;
        n = n;
        n_failed = n_failed;
        avg_latency = ◌/ℤ◌ (ia.avg_latency *ℤ ia.n +ℤ i.latency) (pos_part n);
        avg_score = f.div total_score (float_of n);
        avg_score_no_fails = f.div total_score (f.add (f.sub (float_of n) (float_of n_failed)) c);
        avg_satisfaction = f.div total_satisfaction (float_of n);
      }

  -- The head's item, with the start and the span of its link.
  abbrev pub started_item : ℤ → Timed (KnnMonItemAvg F) → KnnMonItemAvg F
  started_item span head =
      if head.inner.is_set
      then head.inner
      else record head.inner { is_set = true; created = head.created; span = span }

  -- A maintained list with room for a link has a head; without one the code panics.
  unfoldable pub register_head :
      ℤ
      → KnnMonItem F
      → ℕ
      → List (Timed (KnnMonItemAvg F))
      → Option (List (Timed (KnnMonItemAvg F)))
  unfolding merge_knn_mon_item
  register_head span item later [] = none
  register_head span item later (head ∷ links) =
      some (record head { inner = merge_knn_mon_item (started_item span head) item later } ∷ links)

  unfoldable pub register_mon_item :
      TimedLinkedList (KnnMonItemAvg F)
      → KnnMonItem F
      → ℕ
      → ℕ
      → Option (TimedLinkedList (KnnMonItemAvg F))
  unfolding register_head maintain
  register_mon_item averages item now later =
      let averages' = maintain no_average averages now in
      elim (register_head averages'.min_chain_link_size item later averages'.inner) [
        | none ↦ none
        | some links ↦ some (record averages' { inner = links })
      ]

  -- The sum of the scores.
  sum_scores {κ} : {D : Type κ} → F → List (ScoreItem F D) → F
  sum_scores total [] = total
  sum_scores total (item ∷ items) = sum_scores (f.add total item.score) items

  -- What the listener of register registers of one result; k is the number of results asked for. The
  -- result itself is sent on as it came.
  unfoldable pub listen {κ} : {D : Type κ} → List (ScoreItem F D) → ℤ → ℕ → ℕ → KnnMonItem F
  unfolding sum_scores
  listen score_items k stamp now =
      let items = trim_items score_items in
      let delta = sub_ℕ now stamp in
      let n = float_of (pos (length items)) in
      if length items == 0
      then record { latency = delta; avg_score = f.nought; satisfaction = f.nought }
      else record {
        latency = delta;
        avg_score = f.div (sum_scores f.nought items) n;
        satisfaction = f.div n (float_of k);
      }
