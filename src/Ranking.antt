-- ===== src/Ranking.antt =====
-- The sorted buffer of the k best items, which the code has three times: `bubbleInsert` of
-- pkg/knn/utils.go and of service/ops/knnutils.go and `BubbleInsert` of pkg/knnc/knnc.go. It is
-- written here once, over what the three item types have in common.
pub mod Insert
pub mod TopK
pub mod Trim
pub mod Merge
use ddrop.Base.{◌≡◌, refl, Bool, true, false, not, ◌&&◌, ◌||◌, List, [], ◌∷◌, if◌then◌else◌}
use ddrop.Float.{Float}

-- What `bubbleInsert` reads of an item.
pub record Slot {ℓ κ} (F : Type ℓ) (T : Type κ) : Type (ℓ ⊔ κ) where
  pub score : T → F
  pub is_set : T → Bool

module _ {ℓ κ} {F : Type ℓ} {T : Type κ} ⦃f : Float F⦄ (s : Slot F T) where
  -- `condB || condC`: the first item has the better score.
  abbrev pub better : Bool → T → T → Bool
  better ascending a b =
      f.lt (s.score a) (s.score b) && ascending || f.lt (s.score b) (s.score a) && not ascending

  -- `condA || condB || condC`: the insertee takes the place of the item.
  abbrev pub displaces : Bool → T → T → Bool
  displaces ascending insertee item = not (s.is_set item) || better ascending insertee item

  abbrev put_front : T → List T × T → List T × T
  put_front item (rest, out) = (item ∷ rest, out)

  -- The loop over the buffer, with the insertee that it swaps along. The result is the buffer and
  -- the item that the loop is left with.
  unfoldable pub bubble_loop : List T → T → Bool → List T × T
  bubble_loop [] insertee ascending = ([], insertee)
  bubble_loop (item ∷ items) insertee ascending =
      let swap = displaces ascending insertee item in
      let rest = bubble_loop items (if swap then item else insertee) ascending in
      if not (s.is_set insertee)
      then (item ∷ items, insertee)
      else put_front (if swap then insertee else item) rest

  unfoldable pub bubble_insert : List T → T → Bool → List T
  bubble_insert items insertee ascending = (bubble_loop items insertee ascending).0

  -- Insertions of a sequence of items.
  unfoldable pub insert_all : List T → List T → Bool → List T
  insert_all items [] ascending = items
  insert_all items (x ∷ xs) ascending = insert_all (bubble_insert items x ascending) xs ascending

  -- `Trim`: the set items.
  unfoldable pub trim : List T → List T
  trim [] = []
  trim (item ∷ items) = let rest = trim items in if not (s.is_set item) then rest else item ∷ rest

  -- The second item may stand behind the first: an unset item anywhere, a set one behind set ones
  -- that it does not beat.
  abbrev pub Fits : Bool → T → T → Type 0
  Fits ascending a b = s.is_set b ≡ true → (s.is_set a ≡ true) × (better ascending b a ≡ false)
