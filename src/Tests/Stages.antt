-- ===== src/Tests/Stages.antt =====
-- A run of a MapStage, and stages that are done.
use ddrop.Base.{
  ℕ, ◌≡◌, refl, sym, ap, ◌∙◌, Bool, true, false, Option, none, some, List, [], ◌∷◌, ◌++◌, arith,
  length, length-append,
}
use ddrop.Float.{whole_float}
use ddrop.Knnc.Items.{ScoreItem}
use ddrop.Knnc.Stages.{Pool, start_pool, Step, Run, map_outcome}

abbrev pub score_by_value : ℕ → ScoreItem ℕ ℕ × Bool
score_by_value n = (record { distancer = none; score = n; set = false }, true)

abbrev pub scored : ScoreItem ℕ ℕ
scored = record { distancer = some 3; score = 3; set = true }

abbrev pub scanned : List (Option ℕ)
scanned = some 3 ∷ (none ∷ [])

abbrev pub ended : {A : Type 0} → Pool A (ScoreItem ℕ ℕ)
ended = record { queue = []; idle = 1; held = []; output = scored ∷ []; dropped = [] }

pub map_run : Run (map_outcome score_by_value) (start_pool scanned 1) ended
unfolding start_pool map_outcome
map_run =
    Run.then_step
      (Run.then_step
        (Run.then_step Run.still (Step.take _ (some 3) (none ∷ []) 0 scored refl refl refl))
        (Step.send _ [] scored [] refl))
      (Step.skip _ none [] 0 refl refl refl)

module _ {A B : Type 0} (outcome : A → Option B) where
  no_middle : (before : List B) (y : B) (after : List B) → [] ≡ before ++ (y ∷ after) → ⊥
  no_middle before y after e = omega (arith, ap length e, length-append before (y ∷ after))

  pub ended_stuck :
      (p : Pool A B) → p.queue ≡ [] → p.held ≡ [] → (r : Pool A B) → ¬ Step outcome p r
  ended_stuck p no_queue no_held r (Step.skip _ x xs n e i o) = cc
  ended_stuck p no_queue no_held r (Step.take _ x xs n y e i o) = cc
  ended_stuck p no_queue no_held r (Step.send _ before y after e) =
      no_middle before y after (sym no_held ∙ e)
  ended_stuck p no_queue no_held r (Step.abort _ before y after e) =
      no_middle before y after (sym no_held ∙ e)
