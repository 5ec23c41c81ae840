-- ===== src/Knn.antt =====
-- pkg/knn/knn.go and pkg/knn/utils.go: the lazy brute-force search over a generator of scores. A
-- generator is the function from the number of the call to what that call returns; a nil function
-- is `none`. The search takes fuel, since a generator need not stop.
pub mod Prefabs
pub mod Brute
pub mod PrefabLaws
use ddrop.Base.{
  ℕ, zero, suc, ◌+◌, Bool, true, false, not, Option, none, some, List, [], ◌∷◌, if◌then◌else◌,
  bools_ok, replicate,
}
use ddrop.Base.Int.{ℤ, pos, pos_part, ltb_ℤ}
use ddrop.Float.{Float}
use ddrop.Ranking.{Slot, bubble_insert}

pub record ResultItem {ℓ} (F : Type ℓ) : Type ℓ where
  pub index : ℕ
  pub score : F
  pub set : Bool

abbrev pub result_slot {ℓ} : {F : Type ℓ} → Slot F (ResultItem F)
result_slot = record { score = λ r. r.score; is_set = λ r. r.set }

abbrev pub is_some {ℓ} : {A : Type ℓ} → Option A → Bool
is_some none = false
is_some (some a) = true

pub record KnnBruteArgs {ℓ} (F : Type ℓ) : Type ℓ where
  pub score_generator : Option (ℕ → F × Bool)
  pub k : ℤ
  pub ascending : Bool

module _ {ℓ} {F : Type ℓ} where
  unfoldable pub args_ok : KnnBruteArgs F → Bool
  args_ok args = bools_ok (is_some args.score_generator ∷ ltb_ℤ (pos 0) args.k ∷ [])

  pub to_indexes : List (ResultItem F) → List ℕ
  to_indexes [] = []
  to_indexes (r ∷ rs) = let rest = to_indexes rs in if not r.set then rest else r.index ∷ rest

module _ {ℓ} {F : Type ℓ} ⦃f : Float F⦄ where
  -- `make` and the loop that applies the worst score.
  pub initial_items : ℕ → Bool → List (ResultItem F)
  initial_items k ascending =
      let similarity = (if not ascending then f.mul f.max_value f.minus_one else f.max_value) in
      replicate k (record { index = 0; score = similarity; set = false })

  -- `none` means that the fuel ran out.
  pub brute_loop :
      ℕ → (ℕ → F × Bool) → ℕ → List (ResultItem F) → Bool → Option (List (ResultItem F))
  brute_loop zero generator i r ascending = none
  brute_loop (suc fuel) generator i r ascending =
      let (score, cont) = generator i in
      let item : ResultItem F = record { index = i; score = score; set = true } in
      let rest =
        brute_loop fuel generator (i + 1) (bubble_insert result_slot r item ascending) ascending in
      if not cont then some r else rest

  -- The inner `none` is the return of nil and false.
  pub run_brute : ℕ → Option (ℕ → F × Bool) → ℤ → Bool → Option (Option (List ℕ))
  unfolding brute_loop initial_items to_indexes
  run_brute fuel none k ascending = some none
  run_brute fuel (some generator) k ascending =
      elim (brute_loop fuel generator 0 (initial_items (pos_part k) ascending) ascending) [
        | none ↦ none
        | some r ↦ some (some (to_indexes r))
      ]

  pub knn_brute : ℕ → KnnBruteArgs F → Option (Option (List ℕ))
  unfolding run_brute args_ok
  knn_brute fuel args =
      if not (args_ok args)
      then some none
      else run_brute fuel args.score_generator args.k args.ascending
