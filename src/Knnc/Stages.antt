-- ===== src/Knnc/Stages.antt =====
-- pkg/knnc/stages.go: the arguments of the stages, the workers that MapStage and FilterStage start,
-- and the worker of MergeStage. A nil channel or function is shown by `false` and by `none`.
pub mod Composition
pub mod Delivery
pub mod Merging
pub mod Signals
pub mod Threads
pub mod Together
use ddrop.Base.{
  ℕ, suc, ◌+◌, ◌%◌, ◌≡◌, Bool, true, false, not, Option, none, some, List, [], ◌∷◌, ◌++◌, length,
  replicate, ◌==◌, if◌then◌else◌, bools_ok,
}
use ddrop.Base.Int.{ℤ, pos, pos_part, ltb_ℤ}
use ddrop.Float.{Float}
use ddrop.Knnc.Items.{ScoreItem, bubble, trim_items}
use ddrop.Knnc.Workers.{BaseStageArgs, stage_ok}

abbrev pub is_made {ℓ} : {A : Type ℓ} → Option A → Bool
is_made none = false
is_made (some a) = true

module _ {ℓ κ} (F : Type ℓ) (D : Type κ) where
  pub record MapStagePartialArgs : Type (ℓ ⊔ κ) where
    pub map_func : Option (D → ScoreItem F D × Bool)
    pub stage : BaseStageArgs

  pub record MapStageArgs : Type (ℓ ⊔ κ) where
    pub input_made : Bool
    pub partial : MapStagePartialArgs

  pub record FilterStagePartialArgs : Type (ℓ ⊔ κ) where
    pub filter_func : Option (ScoreItem F D → Bool)
    pub stage : BaseStageArgs

  pub record FilterStageArgs : Type (ℓ ⊔ κ) where
    pub input_made : Bool
    pub partial : FilterStagePartialArgs

pub record MergeStagePartialArgs : Type 0 where
  pub k : ℤ
  pub ascending : Bool
  pub send_interval : ℤ
  pub stage : BaseStageArgs

pub record MergeStageArgs : Type 0 where
  pub input_made : Bool
  pub partial : MergeStagePartialArgs

module _ {ℓ κ} {F : Type ℓ} {D : Type κ} where
  unfoldable pub map_partial_ok : MapStagePartialArgs F D → Bool
  map_partial_ok args = bools_ok (is_made args.map_func ∷ stage_ok args.stage ∷ [])

  unfoldable pub map_ok : MapStageArgs F D → Bool
  map_ok args = bools_ok (args.input_made ∷ map_partial_ok args.partial ∷ [])

  unfoldable pub filter_partial_ok : FilterStagePartialArgs F D → Bool
  filter_partial_ok args = bools_ok (is_made args.filter_func ∷ stage_ok args.stage ∷ [])

  unfoldable pub filter_ok : FilterStageArgs F D → Bool
  filter_ok args = bools_ok (args.input_made ∷ filter_partial_ok args.partial ∷ [])

  -- What a worker of MapStage makes of a scanned item: the item that it sends, or `continue`.
  unfoldable pub map_outcome : (D → ScoreItem F D × Bool) → Option D → Option (ScoreItem F D)
  map_outcome map_func none = none
  map_outcome map_func (some d) =
      let (item, ok) = map_func d in
      if not ok then none else some (record item { distancer = some d; set = true })

  -- The same for FilterStage.
  unfoldable pub filter_outcome : (ScoreItem F D → Bool) → ScoreItem F D → Option (ScoreItem F D)
  filter_outcome filter_func item = if not (filter_func item) then none else some item

unfoldable pub merge_partial_ok : MergeStagePartialArgs → Bool
merge_partial_ok args =
    bools_ok (ltb_ℤ (pos 0) args.k ∷ ltb_ℤ (pos 0) args.send_interval ∷ stage_ok args.stage ∷ [])

unfoldable pub merge_ok : MergeStageArgs → Bool
merge_ok args = bools_ok (args.input_made ∷ merge_partial_ok args.partial ∷ [])

-- The workers of MapStage or FilterStage at one moment: what is left in the input channel, how many
-- wait for input, what the others hold in their select, what was sent, and what the workers held
-- that a signal ended.
pub record Pool {ℓ κ} (A : Type ℓ) (B : Type κ) : Type (ℓ ⊔ κ) where
  pub queue : List A
  pub idle : ℕ
  pub held : List B
  pub output : List B
  pub dropped : List B

module _ {ℓ κ} {A : Type ℓ} {B : Type κ} where
  unfoldable pub start_pool : List A → ℕ → Pool A B
  start_pool queue n_workers = record {
    queue = queue;
    idle = n_workers;
    held = [];
    output = [];
    dropped = [];
  }

  -- One worker moves: it takes an item and drops it or holds its outcome, sends what it holds and
  -- waits again, or ends by a signal instead.
  pub data Step (outcome : A → Option B) : Pool A B → Pool A B → Type (ℓ ⊔ κ) where
    skip :
        (p : Pool A B) (x : A) (xs : List A) (n : ℕ)
        → p.queue ≡ x ∷ xs
        → p.idle ≡ suc n
        → outcome x ≡ none
        → Step outcome p (record p { queue = xs })
    take :
        (p : Pool A B) (x : A) (xs : List A) (n : ℕ) (y : B)
        → p.queue ≡ x ∷ xs
        → p.idle ≡ suc n
        → outcome x ≡ some y
        → Step outcome p (record p { queue = xs; idle = n; held = y ∷ p.held })
    send :
        (p : Pool A B) (before : List B) (y : B) (after : List B)
        → p.held ≡ before ++ y ∷ after
        → Step outcome p
            (record p { idle = p.idle + 1; held = before ++ after; output = p.output ++ y ∷ [] })
    abort :
        (p : Pool A B) (before : List B) (y : B) (after : List B)
        → p.held ≡ before ++ y ∷ after
        → Step outcome p (record p { held = before ++ after; dropped = y ∷ p.dropped })

  -- Steps from one state to another.
  pub data Run (outcome : A → Option B) (p : Pool A B) : Pool A B → Type (ℓ ⊔ κ) where
    still : Run outcome p p
    then_step : {q r : Pool A B} → Run outcome p q → Step outcome q r → Run outcome p r

module _ {ℓ κ} {F : Type ℓ} {D : Type κ} ⦃f : Float F⦄ where
  abbrev pub fresh_items : MergeStagePartialArgs → List (ScoreItem F D)
  fresh_items args =
      replicate (pos_part args.k) (record { distancer = none; score = f.nought; set = false })

  -- trySend, where no signal comes: what it sends.
  unfoldable pub try_send : List (ScoreItem F D) → List (List (ScoreItem F D))
  try_send score_items =
      let trimmed = trim_items score_items in
      if length score_items == 0 then [] else if length trimmed == 0 then [] else trimmed ∷ []

  -- The loop of a worker of MergeStage over the items that it receives: what it sends, with no
  -- signal. send_interval is positive in valid arguments.
  unfoldable pub merge_loop :
      MergeStagePartialArgs
      → List (ScoreItem F D)
      → ℕ
      → List (ScoreItem F D)
      → List (List (ScoreItem F D))
  merge_loop args score_items i [] = try_send score_items
  merge_loop args score_items i (item ∷ items) =
      let merged = bubble score_items item args.ascending in
      let rest = merge_loop args merged (i + 1) items in
      let rest_fresh = merge_loop args (fresh_items args) (i + 1) items in
      if i % pos_part args.send_interval == 0 then try_send merged ++ rest_fresh else rest

  unfoldable pub merge_worker :
      MergeStagePartialArgs → List (ScoreItem F D) → List (List (ScoreItem F D))
  unfolding merge_loop
  merge_worker args items = merge_loop args (fresh_items args) 1 items
