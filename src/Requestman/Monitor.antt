-- ===== src/Requestman/Monitor.antt =====
-- service/requestman/monitor.go: the timed linked list, and the merge of averages. A linked list is
-- the list of its payloads from the head on; each reading of the clock is an argument.
pub mod Averages
pub mod Listener
pub mod Window
use ddrop.Base.{
  ℕ, suc, ◌+◌, Bool, true, false, not, ◌&&◌, Option, none, some, List, [], ◌∷◌, ◌++◌, ltb,
  if◌then◌else◌,
}
use ddrop.Base.Int.{ℤ, pos, pos_part, sub_ℕ, ltb_ℤ, leb_ℤ, ◌+ℤ◌, ◌/ℤ◌}
use ddrop.Float.{Float}

module _ {ℓ} {T : Type ℓ} where
  -- The index and the payload of the last link; a nil link is `none`.
  tail_from : ℕ → List T → ℕ × Option T
  tail_from i [] = (0, none)
  tail_from i (x ∷ []) = (i, some x)
  tail_from i (x ∷ y ∷ links) = tail_from (i + 1) (y ∷ links)

  unfoldable tail : List T → ℕ × Option T
  unfolding tail_from
  tail links = tail_from 0 links

  pub add : List T → T → List T
  add links payload = links ++ payload ∷ []

  -- The loop of trim behind the head.
  unfoldable pub trim_from : (ℕ → T → Bool) → ℕ → List T → List T
  trim_from f i [] = []
  trim_from f i (curr ∷ links) =
      let rest = trim_from f (i + 1) links in if not (f i curr) then [] else curr ∷ rest

  unfoldable pub trim : (ℕ → T → Bool) → List T → List T
  unfolding trim_from
  trim f [] = []
  trim f (head ∷ links) = if not (f 0 head) then [] else head ∷ trim_from f 1 links

pub record Timed {ℓ} (T : Type ℓ) : Type ℓ where
  pub created : ℕ
  pub inner : T

pub record TimedLinkedList {ℓ} (T : Type ℓ) : Type ℓ where
  pub inner : List (Timed T)
  pub max_chain_link_n : ℤ
  pub min_chain_link_size : ℤ

module _ {ℓ} {T : Type ℓ} (zero_value : T) where
  abbrev pub fresh : ℕ → Timed T
  fresh now = record { created = now; inner = zero_value }

  unfoldable pub with_head : ℕ → List (Timed T) → List (Timed T)
  unfolding add
  with_head now [] = add [] (fresh now)
  with_head now (head ∷ links) = head ∷ links

  unfoldable pub renewed : ℤ → ℕ → List (Timed T) → List (Timed T)
  renewed size now [] = []
  renewed size now (head ∷ links) =
      if ltb_ℤ size (sub_ℕ now head.created) then fresh now ∷ head ∷ links else head ∷ links

  -- `i <= tll.maxChainLinkN-1`
  abbrev pub within_limit : ℤ → ℕ → Timed T → Bool
  within_limit max_n i item = leb_ℤ (pos (i + 1)) max_n

  unfoldable pub maintain : TimedLinkedList T → ℕ → TimedLinkedList T
  unfolding with_head renewed trim
  maintain tll now = record tll {
    inner =
        trim (within_limit tll.max_chain_link_n)
          (renewed tll.min_chain_link_size now (with_head now tll.inner));
  }

  abbrev pub includes : ℕ → ℤ → Timed T → Bool
  includes start d item = ltb_ℤ (sub_ℕ start item.created) d

  unfoldable pub range_from : ℤ → ℕ → ℤ → ℕ → List (Timed T) → List (Timed T)
  range_from result_max_n start d i [] = []
  range_from result_max_n start d i (item ∷ links) =
      let rest = range_from result_max_n start d (i + 1) links in
      if leb_ℤ (pos (i + 1)) result_max_n && includes start d item then item ∷ rest else []

  -- The links of the range, and the list, which is maintained where the range is long enough. The
  -- size of a link is positive.
  unfoldable pub time_range : TimedLinkedList T → ℕ → ℕ → ℕ → List (Timed T) × TimedLinkedList T
  unfolding range_from maintain
  time_range tll start end now =
      let d = sub_ℕ start end in
      let result_max_n = ◌/ℤ◌ d (pos_part tll.min_chain_link_size) in
      if leb_ℤ result_max_n (pos 0)
      then ([], tll)
      else (range_from result_max_n start d 0 tll.inner, maintain tll now)

-- KNNMonItemAvg
pub record KnnMonItemAvg {ℓ} (F : Type ℓ) : Type ℓ where
  pub is_set : Bool
  pub created : ℕ
  pub span : ℤ
  pub n : ℤ
  pub n_failed : ℤ
  pub avg_latency : ℤ
  pub avg_score : F
  pub avg_score_no_fails : F
  pub avg_satisfaction : F

module _ {ℓ} {F : Type ℓ} ⦃f : Float F⦄ where
  abbrev halved : F → F → F
  halved a b = f.div (f.add a b) (f.of_int 2)

  pub merge_knn_mon_item_avg : KnnMonItemAvg F → KnnMonItemAvg F → KnnMonItemAvg F
  merge_knn_mon_item_avg ia other =
      if not ia.is_set then other else if not other.is_set then ia else record {
        is_set = ia.is_set;
        created = if ltb other.created ia.created then other.created else ia.created;
        span = ◌/ℤ◌ (ia.span +ℤ other.span) 2;
        n = ia.n +ℤ other.n;
        n_failed = ia.n_failed +ℤ other.n_failed;
        avg_latency = ◌/ℤ◌ (ia.avg_latency +ℤ other.avg_latency) 2;
        avg_score = halved ia.avg_score other.avg_score;
        avg_score_no_fails = halved ia.avg_score_no_fails other.avg_score_no_fails;
        avg_satisfaction = halved ia.avg_satisfaction other.avg_satisfaction;
      }
