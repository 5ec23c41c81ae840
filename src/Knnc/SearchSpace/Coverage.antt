-- ===== src/Knnc/SearchSpace/Coverage.antt =====
-- Which items a scan visits.
mod Points
unfoldable pub use Points.{point}
use ddrop.Knnc.SearchSpace.Coverage.Points.{
  point_zero, next_point, point_in_range, point_end, quotient_self, quotient_facts,
}
use native.Mathlib.Nat.{div-add-mod, mod-lt}
use ddrop.Base.{
  ℕ, zero, suc, ◌+◌, ◌-◌, ◌*◌, ◌/◌, ◌%◌, ◌≤◌, ◌<◌, min, ◌≡◌, refl, sym, ap, ◌∙◌, Bool, true, none,
  some, List, [], ◌∷◌, arith, length, ltb, if◌then◌else◌, StandsAt, StandsAt-start, StandsAt-next,
  StandsAt-elem, get_elem?,
}
use ddrop.Float.{Float, IsShared}
use ddrop.Knnc.Items.{Container}
use ddrop.Knnc.SearchSpace.{
  SearchSpace, ScanArgs, distancer_at, scan_loop, scan_items, scan_ok, scan,
}

module _ {ℓ κ} {C : Type ℓ} {D : Type κ} (i : Container C D) where
  -- What is sent in the given number of rounds, from round j: the vectors at the points, without
  -- those that have expired, up to the first round whose send does not happen.
  pub sent_from : List C → (ℕ → ℕ) → (ℕ → Bool) → ℕ → ℕ → ℕ → ℕ → List D
  sent_from items clock sent step remainder j zero = []
  sent_from items clock sent step remainder j (suc left) =
      let rest = sent_from items clock sent step remainder (j + 1) left in
      elim (distancer_at i items (clock j) (point step remainder j)) [
        | none ↦ rest
        | some d ↦ if sent j then d ∷ rest else []
      ]

  scan_loop-eq-sent :
      (fuel l c : ℕ) (items : List C) (clock : ℕ → ℕ) (sent : ℕ → Bool) (step remainder j left : ℕ)
      → length items ≡ l
      → l ≡ c * step + remainder
      → c ≡ j + left
      → remainder < c
      → 0 < step
      → left < fuel
      → scan_loop i fuel items clock sent step j (point step remainder j) (remainder - j)
        ≡ some (sent_from items clock sent step remainder j left)
  unfolding scan_loop sent_from
  scan_loop-eq-sent zero l c items clock sent step remainder j left s e p r h enough =
      elim enough [ ]
  scan_loop-eq-sent (suc fuel) l c items clock sent step remainder j zero s e p r h enough =
      ground (arith, point_end l c step remainder j)
  scan_loop-eq-sent (suc fuel) l c items clock sent step remainder j (suc left) s e p r h enough =
      let ih =
        scan_loop-eq-sent fuel l c items clock sent step remainder (j + 1) left s e (omega arith) r
          h (omega arith) in
      let less : remainder - j - 1 ≡ remainder - (j + 1) = omega arith in
      let rest : scan_loop i fuel items clock sent step (j + 1)
            (point step remainder j + step + (if ltb 0 (remainder - j) then 1 else 0))
            (remainder - j - 1)
          ≡ some (sent_from items clock sent step remainder (j + 1) left) =
        rw (next_point step remainder j, less) ih in
      ground (arith, rest, point_in_range l c step remainder j left e p h)

  rounds_from_start :
      (fuel l c : ℕ) (items : List C) (clock : ℕ → ℕ) (sent : ℕ → Bool)
      → length items ≡ l
      → l ≡ c * (l / c) + l % c
      → l % c < c
      → 0 < l / c
      → c < fuel
      → scan_loop i fuel items clock sent (l / c) 0 0 (l % c)
        ≡ some (sent_from items clock sent (l / c) (l % c) 0 c)
  rounds_from_start fuel l c items clock sent s e r h enough =
      let all =
        scan_loop-eq-sent fuel l c items clock sent (l / c) (l % c) 0 c s e (omega arith) r h
          enough in
      let start : point (l / c) (l % c) 0 ≡ 0 = point_zero (l / c) (l % c) in
      let whole : l % c - 0 ≡ l % c = omega arith in rw (start, whole) at all

  -- The vectors of the items that have not expired, the k-th item looked at by the k-th reading.
  pub live_items : (ℕ → ℕ) → ℕ → List C → List D
  live_items clock k [] = []
  live_items clock k (c ∷ cs) =
      let rest = live_items clock (k + 1) cs in
      elim (i.distancer (clock k) c) [ none ↦ rest | some d ↦ d ∷ rest ]

  sent_from-eq-live :
      (items : List C) (clock : ℕ → ℕ) (k : ℕ) (cs : List C)
      → StandsAt items k cs
      → sent_from items clock (λ _. true) 1 0 k (length cs) ≡ live_items clock k cs
  unfolding sent_from live_items point
  sent_from-eq-live items clock k [] h = refl
  sent_from-eq-live items clock k (c ∷ cs) h =
      let e : k * 1 + min k 0 ≡ k = omega arith in
      let here : get_elem? items (k * 1 + min k 0) ≡ some c = rw e (StandsAt-elem items k c cs h) in
      ground (arith, here, sent_from-eq-live items clock (k + 1) cs (StandsAt-next items k c cs h))

module _ {ℓ κ} {C : Type ℓ} {D : Type κ} (i : Container C D) where
  sent_whole :
      (items : List C) (clock : ℕ → ℕ) (c : ℕ)
      → 0 < c
      → c ≡ length items
      → sent_from i items clock (λ _. true) (length items / c) (length items % c) 0 c
        ≡ live_items i clock 0 items
  sent_whole items clock c p e =
      let l = length items in
      let (one, none_left) =
        quotient_self (l / c) c (l % c) l (sym (div-add-mod l c)) (mod-lt l p) e in
      rw (one, none_left, e) (sent_from-eq-live i items clock 0 items (StandsAt-start items))

module _ {ℓ κ μ} {F : Type ℓ} ⦃f : Float F⦄ {C : Type κ} {D : Type μ} (i : Container C D) where
  abbrev pub check_n : SearchSpace C → ScanArgs F → ℕ
  check_n ss args = f.ceil_int (f.mul (f.of_int (length ss.items)) args.extent)

  extent_bounds :
      (args : ScanArgs F)
      → scan_ok args ≡ true
      → (f.lt f.nought args.extent ≡ true) × (f.le args.extent f.one ≡ true)
  unfolding scan_ok
  extent_bounds args ok = ground arith

  scan_items_lem :
      (fuel : ℕ) (extent : F) (items : List C) (clock : ℕ → ℕ) (sent : ℕ → Bool)
      → 0 < length items
      → length items < fuel
      → let l = length items in
        let c = f.ceil_int (f.mul (f.of_int l) extent) in
        0 < c
        → c ≤ l
        → scan_items i fuel extent items clock sent
          ≡ some (sent_from i items clock sent (l / c) (l % c) 0 c)
  unfolding scan_items
  scan_items_lem fuel extent items clock sent some_items enough positive share =
      let l = length items in
      let c = f.ceil_int (f.mul (f.of_int l) extent) in
      let (step, e) = quotient_facts l c positive share in
      let rounds : scan_loop i fuel items clock sent (l / c) 0 0 (l % c)
          ≡ some (sent_from i items clock sent (l / c) (l % c) 0 c) =
        rounds_from_start i fuel l c items clock sent refl e (mod-lt l positive) step
          (omega arith) in
      ground (arith, rounds)

  -- A scan with valid arguments of a space that is not empty ends, with any fuel above the number of
  -- its items. It makes as many rounds as the extent's share of the items, rounded up, and sends
  -- what the items at the points of the rounds give, up to the first send that a signal preempts.
  pub scan-eq-sent :
      (laws : IsShared F) (fuel : ℕ) (ss : SearchSpace C) (args : ScanArgs F) (clock : ℕ → ℕ)
      (sent : ℕ → Bool)
      → scan_ok args ≡ true
      → 0 < length ss.items
      → length ss.items < fuel
      → let l = length ss.items in
        let c = check_n ss args in
        (0 < c)
        × (c ≤ l)
        × (scan i fuel ss args clock sent
            ≡ some (some (sent_from i ss.items clock sent (l / c) (l % c) 0 c)))
  unfolding scan
  scan-eq-sent laws fuel ss args clock sent ok some_items enough =
      let (lower, upper) = extent_bounds args ok in
      let (positive, share) =
        laws.share_bounds (length ss.items) args.extent lower upper some_items in
      (
        positive,
        share,
        rw
            (
              ok,
              scan_items_lem fuel args.extent ss.items clock sent some_items enough positive share,
              scan,
            )
            refl,
      )

  -- A scan with valid arguments of a space that is not empty, where the extent's share is all items
  -- and no signal comes: it ends, with any fuel above the number of items, and sends the vector of
  -- every item that has not expired when it is visited, in order.
  pub scan-eq-live :
      (laws : IsShared F) (fuel : ℕ) (ss : SearchSpace C) (args : ScanArgs F) (clock : ℕ → ℕ)
      → scan_ok args ≡ true
      → 0 < length ss.items
      → length ss.items < fuel
      → check_n ss args ≡ length ss.items
      → scan i fuel ss args clock (λ _. true) ≡ some (some (live_items i clock 0 ss.items))
  scan-eq-live laws fuel ss args clock ok some_items enough all =
      let (p, _, e) = scan-eq-sent laws fuel ss args clock (λ _. true) ok some_items enough in
      e ∙ ap (λ ds. some (some ds)) (sent_whole i ss.items clock (check_n ss args) p all)
