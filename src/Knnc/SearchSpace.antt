-- ===== src/Knnc/SearchSpace.antt =====
-- pkg/knnc/sspace.go: one search space, a bounded slice of containers of equal dimension.
pub mod Invariant
pub mod Coverage
use ddrop.Base.{
  ℕ, zero, suc, ◌+◌, ◌-◌, ◌/◌, ◌%◌, Bool, true, false, not, ◌&&◌, Option, none, some, List, [], ◌∷◌,
  ◌++◌, length, get_elem?, ltb, leb, ◌==◌, if◌then◌else◌, bools_ok,
}
use ddrop.Base.Int.{ℤ, pos, negsuc}
use ddrop.Float.{Float}
use ddrop.Knnc.Items.{Container}
use ddrop.Knnc.Workers.{BaseWorkerArgs, worker_ok}

pub record SearchSpace {ℓ} (C : Type ℓ) : Type ℓ where
  pub items : List C
  pub capacity : ℕ
  pub vec_dim : ℕ

module _ {ℓ} {C : Type ℓ} where
  unfoldable pub new_search_space : ℤ → Option (SearchSpace C)
  new_search_space (pos zero) = none
  new_search_space (pos (suc n)) = some (record { items = []; capacity = suc n; vec_dim = 0 })
  new_search_space (negsuc n) = none

  unfoldable pub len : SearchSpace C → ℕ
  len ss = length ss.items

  unfoldable pub cap : SearchSpace C → ℕ
  cap ss = ss.capacity

  -- Dim returns the capacity.
  unfoldable pub dim : SearchSpace C → ℕ
  dim ss = ss.capacity

  -- The old items, and the cleared space.
  unfoldable pub clear : SearchSpace C → List C × SearchSpace C
  clear ss = (ss.items, record ss { items = [] })

module _ {ℓ κ} {C : Type ℓ} {D : Type κ} (i : Container C D) where
  unfoldable pub add_valid : SearchSpace C → C → D → SearchSpace C × Bool
  add_valid ss dc d =
      let empty = length ss.items == 0 in
      if not (i.dim d == ss.vec_dim) && not empty
      then (ss, false)
      else if leb ss.capacity (length ss.items)
      then (ss, false)
      else (
        record ss { items = ss.items ++ dc ∷ []; vec_dim = if empty then i.dim d else ss.vec_dim },
        true,
      )

  -- The container may be nil. The instant is that of the call of Distancer.
  unfoldable pub add_searchable : SearchSpace C → Option C → ℕ → SearchSpace C × Bool
  unfolding add_valid
  add_searchable ss none now = (ss, false)
  add_searchable ss (some dc) now = elim (i.distancer now dc) [
    | none ↦ (ss, false)
    | some d ↦ add_valid ss dc d
  ]

  -- The clock is read once for each item, in their order.
  pub clean_items : (ℕ → ℕ) → List C → List C
  clean_items clock [] = []
  clean_items clock (c ∷ cs) =
      let rest = clean_items (λ k. clock (k + 1)) cs in
      elim (i.distancer (clock 0) c) [ none ↦ rest | some d ↦ c ∷ rest ]

  unfoldable pub clean : SearchSpace C → (ℕ → ℕ) → SearchSpace C
  unfolding clean_items
  clean ss clock = record ss { items = clean_items clock ss.items }

  -- The distancer of the item with that index; the loop's test keeps the index in range.
  abbrev pub distancer_at : List C → ℕ → ℕ → Option D
  distancer_at items t index = elim (get_elem? items index) [
    | none ↦ none
    | some c ↦ i.distancer t c
  ]

  abbrev cons_some : D → Option (List D) → Option (List D)
  cons_some d none = none
  cons_some d (some ds) = some (d ∷ ds)

  -- The loop of the scanner, on fuel, from its k-th round: what it sends. `sent k` says whether the
  -- select of round k sends, and does not return on a cancel or deadline signal.
  pub scan_loop : ℕ → List C → (ℕ → ℕ) → (ℕ → Bool) → ℕ → ℕ → ℕ → ℕ → Option (List D)
  scan_loop zero items clock sent step k index remainder = none
  scan_loop (suc fuel) items clock sent step k index remainder =
      let rest =
        scan_loop fuel items clock sent step (k + 1)
          (index + step + (if ltb 0 remainder then 1 else 0)) (remainder - 1) in
      if not (ltb index (length items))
      then some []
      else elim (distancer_at items (clock k) index) [
        | none ↦ rest
        | some d ↦ if sent k then cons_some d rest else some []
      ]

-- SearchSpaceScanArgs
pub record ScanArgs {ℓ} (F : Type ℓ) : Type ℓ where
  pub extent : F
  pub worker : BaseWorkerArgs

module _ {ℓ} {F : Type ℓ} ⦃f : Float F⦄ where
  unfoldable pub scan_ok : ScanArgs F → Bool
  unfolding worker_ok
  scan_ok args =
      bools_ok ((f.lt f.nought args.extent && f.le args.extent f.one) ∷ worker_ok args.worker ∷ [])

module _ {ℓ κ μ} {F : Type ℓ} ⦃f : Float F⦄ {C : Type κ} {D : Type μ} (i : Container C D) where
  -- What the goroutine of Scan sends, on fuel. A quotient by zero would panic, as fuel out.
  pub scan_items : ℕ → F → List C → (ℕ → ℕ) → (ℕ → Bool) → Option (List D)
  unfolding scan_loop
  scan_items fuel extent items clock sent =
      let l = length items in
      let check_n = f.ceil_int (f.mul (f.of_int l) extent) in
      let found = scan_loop i fuel items clock sent (l / check_n) 0 0 (l % check_n) in
      if l == 0 then some [] else if check_n == 0 then none else found

  -- The inner `none` is the return of nil and false.
  pub scan : ℕ → SearchSpace C → ScanArgs F → (ℕ → ℕ) → (ℕ → Bool) → Option (Option (List D))
  scan fuel ss args clock sent =
      if not (scan_ok args)
      then some none
      else elim (scan_items fuel args.extent ss.items clock sent) [
        | none ↦ none
        | some ds ↦ some (some ds)
      ]
