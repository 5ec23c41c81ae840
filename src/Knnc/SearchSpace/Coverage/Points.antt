-- ===== src/Knnc/SearchSpace/Coverage/Points.antt =====
-- The indexes that a scan visits, and the division of its items.
use native.Mathlib.Nat.{div-add-mod, mod-lt}
use ddrop.Base.{
  ℕ, zero, suc, ◌+◌, ◌-◌, ◌*◌, ◌/◌, ◌%◌, ◌≤◌, ◌<◌, min, ◌≡◌, refl, sym, arith, ltb, if◌then◌else◌,
}

-- The index that round j visits, where steps of the given size are lengthened by one in the first
-- `remainder` rounds.
unfoldable pub point : ℕ → ℕ → ℕ → ℕ
point step remainder j = j * step + min j remainder

pub point_zero : (step remainder : ℕ) → point step remainder 0 ≡ 0
unfolding point
point_zero step remainder = omega arith

pub next_point :
    (step remainder j : ℕ)
    → point step remainder j + step + (if ltb 0 (remainder - j) then 1 else 0)
      ≡ point step remainder (j + 1)
unfolding point
next_point step remainder j = ground arith

pub point_in_range :
    (l c step remainder j left : ℕ)
    → l ≡ c * step + remainder
    → c ≡ j + suc left
    → 0 < step
    → point step remainder j < l
unfolding point
point_in_range l c step remainder j left e p h =
    let q : c * step ≡ j * step + step + left * step = rw p (omega arith) in omega arith

pub point_end :
    (l c step remainder j : ℕ)
    → l ≡ c * step + remainder
    → c ≡ j + 0
    → remainder < c
    → point step remainder j ≡ l
unfolding point
point_end l c step remainder j e p h = let q : c ≡ j = omega arith in rw (e, q) (omega arith)

quotient_pos : (q c r l : ℕ) → l ≡ c * q + r → r < c → c ≤ l → 0 < q
quotient_pos zero c r l e h k = absurd (omega arith)
quotient_pos (suc q) c r l e h k = omega arith

-- A whole division by itself.
pub quotient_self : (q c r l : ℕ) → l ≡ c * q + r → r < c → c ≡ l → (q ≡ 1) × (r ≡ 0)
quotient_self zero c r l e h k = absurd (omega arith)
quotient_self (suc zero) c r l e h k = (refl, omega arith)
quotient_self (suc (suc q)) c r l e h k = absurd (omega arith)

pub quotient_facts : (l c : ℕ) → 0 < c → c ≤ l → (0 < l / c) × (l ≡ c * (l / c) + l % c)
quotient_facts l c p q =
    let e = sym (div-add-mod l c) in (quotient_pos (l / c) c (l % c) l e (mod-lt l p) q, e)

-- The points of l / c steps with l % c remaining lie below l, they grow strictly, and where c is l
-- each is its own round: c rounds visit c different items, spread over all of them.
point_spread :
    (l c j : ℕ)
    → 0 < c
    → c ≤ l
    → j < c
    → (point (l / c) (l % c) j < l)
      × (point (l / c) (l % c) j < point (l / c) (l % c) (j + 1))
      × (c ≡ l → point (l / c) (l % c) j ≡ j)
unfolding point
point_spread l c j p q r =
    let (step, e) = quotient_facts l c p q in
    (
      point_in_range l c (l / c) (l % c) j (c - j - 1) e (omega arith) step,
      omega arith,
      λ same.
          let (one, none_left) = quotient_self (l / c) c (l % c) l e (mod-lt l p) same in
          rw (one, none_left) (omega arith),
    )
