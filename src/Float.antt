-- ===== src/Float.antt =====
-- Go's float64 and the functions of package math that the code calls: a parameter of the model.
-- The comparisons are functions into Bool, so a NaN is a value that every comparison refuses.
use ddrop.Base.{
  ℕ, ◌<◌, ◌≤◌, ◌+◌, ◌-◌, ◌*◌, ◌/◌, ◌≡◌, Bool, true, false, arith, ltb, leb, ◌==◌, ◌⊎◌, inl, inr,
  Bool-cases,
}

pub record Float {ℓ} (F : Type ℓ) : Type ℓ where
  pub nought : F
  pub one : F
  pub minus_one : F
  pub max_value : F
  pub add : F → F → F
  pub sub : F → F → F
  pub mul : F → F → F
  pub div : F → F → F
  pub sqrt : F → F
  pub lt : F → F → Bool
  pub le : F → F → Bool
  pub eq : F → F → Bool
  -- float64(n), and int(math.Ceil(x)) for x >= 0
  pub of_int : ℕ → F
  pub ceil_int : F → ℕ

-- What IEEE comparison gives, for NaN too: `<` is a strict order.
pub record IsStrict {ℓ} (F : Type ℓ) ⦃f : Float F⦄ : Type ℓ where
  pub lt_irrefl : (x : F) → f.lt x x ≡ false
  pub lt_trans : (x y z : F) → f.lt x y ≡ true → f.lt y z ≡ true → f.lt x z ≡ true

-- Of three numbers, where the first is below the last, the second is above the first or below the
-- last. A NaN is no number.
pub record IsWeak {ℓ} (F : Type ℓ) ⦃f : Float F⦄ (is_number : F → Bool) : Type ℓ where
  pub lt_split :
      (x y z : F)
      → is_number x ≡ true
      → is_number y ≡ true
      → is_number z ≡ true
      → f.lt x z ≡ true
      → (f.lt x y ≡ true) ⊎ (f.lt y z ≡ true)

-- A positive share of at most one of l > 0 items, rounded up, is from 1 to l.
pub record IsShared {ℓ} (F : Type ℓ) ⦃f : Float F⦄ : Type ℓ where
  pub share_bounds :
      (l : ℕ) (x : F)
      → f.lt f.nought x ≡ true
      → f.le x f.one ≡ true
      → 0 < l
      → let c = f.ceil_int (f.mul (f.of_int l) x) in (0 < c) × (c ≤ l)

-- The operations can be met: whole numbers, with a root rounded down to one half of its argument.
instance abbrev pub whole_float : Float ℕ
whole_float = record {
  nought = 0;
  one = 1;
  minus_one = 1;
  max_value = 1000;
  add = ◌+◌;
  sub = ◌-◌;
  mul = ◌*◌;
  div = ◌/◌;
  sqrt = λ x. x;
  lt = ltb;
  le = leb;
  eq = ◌==◌;
  of_int = λ n. n;
  ceil_int = λ x. x;
}

ltb_irrefl : (x : ℕ) → ltb x x ≡ false
ltb_irrefl x = ground arith

ltb_trans : (x y z : ℕ) → ltb x y ≡ true → ltb y z ≡ true → ltb x z ≡ true
ltb_trans x y z p q = ground arith

pub ℕ-IsStrict : IsStrict ℕ
ℕ-IsStrict = record { lt_irrefl = ltb_irrefl; lt_trans = ltb_trans }

share_bounds_ℕ : (l x : ℕ) → ltb 0 x ≡ true → leb x 1 ≡ true → 0 < l → (0 < l * x) × (l * x ≤ l)
share_bounds_ℕ l x p q h = let e : x ≡ 1 = ground arith in rw e (omega arith)

pub ℕ-IsShared : IsShared ℕ
ℕ-IsShared = record { share_bounds = share_bounds_ℕ }

ltb_split : (x y z : ℕ) → ltb x z ≡ true → (ltb x y ≡ true) ⊎ (ltb y z ≡ true)
ltb_split x y z h = elim (Bool-cases (ltb x y)) [
  | inl below ↦ inl below
  | inr above ↦ inr (ground arith)
]

pub ℕ-IsWeak : IsWeak ℕ (λ x. true)
ℕ-IsWeak = record { lt_split = λ x y z p q r. ltb_split x y z }
