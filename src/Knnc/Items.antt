-- ===== src/Knnc/Items.antt =====
-- pkg/knnc/knnc.go: containers of vectors and scored items. A container that has expired gives no
-- distancer; what it gives depends on the clock, so each call takes the instant of the call.
use ddrop.Base.{ℕ, ◌≡◌, Bool, List, Option, some}
use ddrop.Float.{Float}
use ddrop.Ranking.{Slot, bubble_insert, trim}

-- The interface DistancerContainer over containers C, and Dim of its distancers D. A nil interface
-- and an interface that holds a nil pointer are both `none`.
pub record Container {ℓ κ} (C : Type ℓ) (D : Type κ) : Type (ℓ ⊔ κ) where
  pub distancer : ℕ → C → Option D
  pub dim : D → ℕ

-- A container gives vectors of one dimension.
pub record IsStable {ℓ κ} {C : Type ℓ} {D : Type κ} (i : Container C D) : Type (ℓ ⊔ κ) where
  pub dim_eq :
      (c : C) (t u : ℕ) (d e : D)
      → i.distancer t c ≡ some d
      → i.distancer u c ≡ some e
      → i.dim d ≡ i.dim e

pub record ScoreItem {ℓ κ} (F : Type ℓ) (D : Type κ) : Type (ℓ ⊔ κ) where
  pub distancer : Option D
  pub score : F
  pub set : Bool

module _ {ℓ κ} {F : Type ℓ} {D : Type κ} where
  abbrev pub score_slot : Slot F (ScoreItem F D)
  score_slot = record { score = λ r. r.score; is_set = λ r. r.set }

module _ {ℓ κ} {F : Type ℓ} {D : Type κ} ⦃f : Float F⦄ where
  -- ScoreItems.BubbleInsert and ScoreItems.Trim
  abbrev pub bubble : List (ScoreItem F D) → ScoreItem F D → Bool → List (ScoreItem F D)
  bubble items insertee ascending = bubble_insert score_slot items insertee ascending

  abbrev pub trim_items : List (ScoreItem F D) → List (ScoreItem F D)
  trim_items items = trim score_slot items
