-- ===== src/Knnc/SearchSpaces.antt =====
-- pkg/knnc/sspaces.go: a bounded collection of search spaces. Every call of Distancer reads the
-- clock; `clock k` is the reading for the k-th such call of an operation.
pub mod Additions
pub mod Cleaning
pub mod Loop
pub mod Scanning
use ddrop.Base.{
  ℕ, zero, suc, ◌+◌, Bool, true, false, not, ◌&&◌, Option, none, some, List, [], ◌∷◌, ◌++◌, length,
  get_elem?, leb, ◌==◌, if◌then◌else◌, bools_ok,
}
use ddrop.Base.Int.{ℤ, pos, pos_part, ltb_ℤ, leb_ℤ}
use ddrop.Float.{Float}
use ddrop.Knnc.Items.{Container}
use ddrop.Knnc.Workers.{BaseStageArgs, stage_ok}
use ddrop.Knnc.SearchSpace
use ddrop.Knnc.SearchSpace.{SearchSpace, ScanArgs}

pub record SearchSpaces {ℓ} (C : Type ℓ) : Type ℓ where
  pub spaces : List (SearchSpace C)
  pub capacity : ℕ
  pub max_cap : ℤ
  pub uniform_dim : ℕ
  pub maintenance_interval : ℤ
  pub maintenance_active : Bool

pub record NewSearchSpacesArgs : Type 0 where
  pub max_cap : ℤ
  pub max_n : ℤ
  pub maintenance_interval : ℤ

unfoldable pub args_ok : NewSearchSpacesArgs → Bool
args_ok args = bools_ok (
    ltb_ℤ (pos 0) args.max_cap
    ∷ ltb_ℤ (pos 0) args.max_n
    ∷ ltb_ℤ (pos 0) args.maintenance_interval
    ∷ [])

module _ {ℓ} {C : Type ℓ} where
  unfoldable pub new_search_spaces : NewSearchSpacesArgs → Option (SearchSpaces C)
  unfolding args_ok
  new_search_spaces args =
      if not (args_ok args)
      then none
      else some (record {
        spaces = [];
        capacity = pos_part args.max_n;
        max_cap = args.max_cap;
        uniform_dim = 0;
        maintenance_interval = args.maintenance_interval;
        maintenance_active = false;
      })

  unfoldable pub sum_len : ℕ → List (SearchSpace C) → ℕ
  sum_len distancers_n [] = distancers_n
  sum_len distancers_n (s ∷ spaces) = sum_len (distancers_n + SearchSpace.len s) spaces

  unfoldable pub len : SearchSpaces C → ℕ × ℕ
  unfolding sum_len
  len ss = (length ss.spaces, sum_len 0 ss.spaces)

  unfoldable pub cap : SearchSpaces C → ℕ
  cap ss = ss.capacity

  unfoldable pub dim : SearchSpaces C → ℕ
  dim ss = ss.uniform_dim

  -- The old spaces, and the cleared collection.
  unfoldable pub clear : SearchSpaces C → List (SearchSpace C) × SearchSpaces C
  clear ss = (ss.spaces, record ss { spaces = [] })

module _ {ℓ κ} {C : Type ℓ} {D : Type κ} (i : Container C D) where
  abbrev pub behind : SearchSpace C → List (SearchSpace C) × Bool → List (SearchSpace C) × Bool
  behind s (spaces, ok) = (s ∷ spaces, ok)

  -- The loop that tries to add to any of the spaces.
  pub try_add : List (SearchSpace C) → Option C → (ℕ → ℕ) → List (SearchSpace C) × Bool
  try_add [] dc clock = ([], false)
  try_add (s ∷ spaces) dc clock =
      let (s', ok) = SearchSpace.add_searchable i s dc (clock 0) in
      let rest = try_add spaces dc (λ k. clock (k + 1)) in
      if ok then (s' ∷ spaces, true) else behind s' rest

  -- The space that the addition makes, where none could add.
  pub new_with : ℤ → Option C → ℕ → Option (SearchSpace C)
  new_with max_cap dc now = elim (SearchSpace.new_search_space {C = C} max_cap) [
    | none ↦ none
    | some s ↦ let (s', ok) = SearchSpace.add_searchable i s dc now in if ok then some s' else none
  ]

  pub append_space :
      SearchSpaces C → List (SearchSpace C) → Option (SearchSpace C) → D → SearchSpaces C × Bool
  append_space ss spaces none d = (record ss { spaces = spaces }, false)
  append_space ss spaces (some s) d = (
    record ss {
      spaces = spaces ++ s ∷ [];
      uniform_dim = if length (spaces ++ s ∷ []) == 1 then i.dim d else ss.uniform_dim;
    },
    true,
  )

  unfoldable pub add_valid : SearchSpaces C → C → D → (ℕ → ℕ) → SearchSpaces C × Bool
  add_valid ss dc d clock =
      let (spaces, ok) = try_add ss.spaces (some dc) (λ k. clock (k + 1)) in
      let new = new_with ss.max_cap (some dc) (clock (length ss.spaces + 1)) in
      if not (i.dim d == ss.uniform_dim) && not (length ss.spaces == 0)
      then (ss, false)
      else if ok
      then (record ss { spaces = spaces }, true)
      else if leb ss.capacity (length spaces)
      then (record ss { spaces = spaces }, false)
      else append_space ss spaces new d

  unfoldable pub add_searchable : SearchSpaces C → Option C → (ℕ → ℕ) → SearchSpaces C × Bool
  unfolding add_valid
  add_searchable ss none clock = (ss, false)
  add_searchable ss (some dc) clock = elim (i.distancer (clock 0) dc) [
    | none ↦ (ss, false)
    | some d ↦ add_valid ss dc d clock
  ]

  pub clean_spaces : List (SearchSpace C) → (ℕ → ℕ) → List (SearchSpace C)
  clean_spaces [] clock = []
  clean_spaces (s ∷ spaces) clock =
      let s' = SearchSpace.clean i s clock in
      let rest = clean_spaces spaces (λ k. clock (k + SearchSpace.len s)) in
      if SearchSpace.len s' == 0 then rest else s' ∷ rest

  unfoldable pub clean : SearchSpaces C → (ℕ → ℕ) → SearchSpaces C
  unfolding clean_spaces
  clean ss clock = record ss { spaces = clean_spaces ss.spaces clock }

  -- The space with that index is cleaned, and removed where that empties it. The Boolean says
  -- whether it was removed.
  pub clean_at : List (SearchSpace C) → ℕ → (ℕ → ℕ) → List (SearchSpace C) × Bool
  clean_at [] cursor clock = ([], false)
  clean_at (s ∷ spaces) zero clock =
      let s' = SearchSpace.clean i s clock in
      if SearchSpace.len s' == 0 then (spaces, true) else (s' ∷ spaces, false)
  clean_at (s ∷ spaces) (suc cursor) clock = behind s (clean_at spaces cursor clock)

  -- stepf of the maintenance loop: the collection, the cursor, and whether the loop goes on.
  pub step : SearchSpaces C → ℕ → (ℕ → ℕ) → SearchSpaces C × ℕ × Bool
  unfolding clean_at
  step ss cursor clock =
      let cursor' = (if leb (length ss.spaces) cursor then 0 else cursor) in
      let (spaces, removed) = clean_at ss.spaces cursor' clock in
      if length ss.spaces == 0 then (ss, cursor, ss.maintenance_active) else (
        record ss { spaces = spaces },
        if removed then cursor' else cursor' + 1,
        ss.maintenance_active,
      )

-- SearchSpacesScanArgs
pub record SpacesScanArgs {ℓ} (F : Type ℓ) : Type ℓ where
  pub extent : F
  pub stage : BaseStageArgs

module _ {ℓ} {F : Type ℓ} ⦃f : Float F⦄ where
  unfoldable pub scan_ok : SpacesScanArgs F → Bool
  scan_ok args =
      bools_ok ((f.le f.nought args.extent && f.le args.extent f.one) ∷ stage_ok args.stage ∷ [])

  -- The arguments that the scans of the single spaces get.
  unfoldable pub inherited : SpacesScanArgs F → ScanArgs F
  inherited args = record { extent = args.extent; worker = args.stage.worker }
