-- ===== src/Base/Lists.antt =====
-- Lists measured and indexed by native numbers, under the library's names.
use Prim.Native.Nat.{ℕ, zero, suc, ◌+◌, min}
use mathlib.Core.Path.{◌≡◌, refl, sym, ap, ◌∙◌}
use mathlib.Core.List.{List, [], ◌∷◌, ◌++◌, append_assoc}
use mathlib.Core.Option.{Option, none, some}
use mathlib.Core.Logic.{◌≢◌}
use native.Mathlib.Omega.{arith}

module _ {ℓ} {A : Type ℓ} where
  abbrev pub length : List A → ℕ
  length [] = 0
  length (x ∷ xs) = suc (length xs)

  abbrev pub get_elem? : List A → ℕ → Option A
  get_elem? [] i = none
  get_elem? (x ∷ xs) zero = some x
  get_elem? (x ∷ xs) (suc i) = get_elem? xs i

  abbrev pub take : ℕ → List A → List A
  take zero xs = []
  take (suc n) [] = []
  take (suc n) (x ∷ xs) = x ∷ take n xs

  abbrev pub replicate : ℕ → A → List A
  replicate zero a = []
  replicate (suc n) a = a ∷ replicate n a

  pub length-append : (xs ys : List A) → length (xs ++ ys) ≡ length xs + length ys
  length-append [] ys = omega arith
  length-append (x ∷ xs) ys = omega (arith, length-append xs ys)

  pub length-replicate : (n : ℕ) (a : A) → length (replicate n a) ≡ n
  length-replicate zero a = refl
  length-replicate (suc n) a = ap suc (length-replicate n a)

  pub length-take : (n : ℕ) (xs : List A) → length (take n xs) ≡ min n (length xs)
  length-take zero xs = omega arith
  length-take (suc n) [] = omega arith
  length-take (suc n) (x ∷ xs) = omega (arith, length-take n xs)

  -- Every element satisfies the predicate.
  abbrev pub All {κ} : (A → Type κ) → List A → Type κ
  All P [] = Unit
  All P (x ∷ xs) = P x × All P xs

  pub All-append {κ} : (P : A → Type κ) (xs ys : List A) → All P xs → All P ys → All P (xs ++ ys)
  All-append P [] ys _ q = q
  All-append P (x ∷ xs) ys (p, ps) q = (p, All-append P xs ys ps q)

  pub All-split {κ} : (P : A → Type κ) (xs ys : List A) → All P (xs ++ ys) → All P xs × All P ys
  All-split P [] ys h = (tt, h)
  All-split P (x ∷ xs) ys (p, h) = let (a, b) = All-split P xs ys h in ((p, a), b)

  pub All-of {κ} : (P : A → Type κ) → ((a : A) → P a) → (xs : List A) → All P xs
  All-of P f [] = tt
  All-of P f (x ∷ xs) = (f x, All-of P f xs)

  pub All-map {κ κ'} :
      (P : A → Type κ) (Q : A → Type κ') (f : (a : A) → P a → Q a) (xs : List A)
      → All P xs
      → All Q xs
  All-map P Q f [] h = tt
  All-map P Q f (x ∷ xs) (h, hs) = (f x h, All-map P Q f xs hs)

  pub All-replicate {κ} : (P : A → Type κ) (n : ℕ) (a : A) → P a → All P (replicate n a)
  All-replicate P zero a h = tt
  All-replicate P (suc n) a h = (h, All-replicate P n a h)

  -- Every element stands in the relation to every later one.
  abbrev pub Pairs {κ} : (A → A → Type κ) → List A → Type κ
  Pairs R [] = Unit
  Pairs R (x ∷ xs) = All (R x) xs × Pairs R xs

  -- The list stands in the other one from the index on.
  abbrev pub StandsAt : List A → ℕ → List A → Type ℓ
  StandsAt xs i ys = (j : ℕ) → get_elem? xs (i + j) ≡ get_elem? ys j

  pub StandsAt-start : (xs : List A) → StandsAt xs 0 xs
  StandsAt-start xs j = ap (get_elem? xs) (omega arith)

  pub StandsAt-next :
      (xs : List A) (i : ℕ) (y : A) (ys : List A) → StandsAt xs i (y ∷ ys) → StandsAt xs (i + 1) ys
  StandsAt-next xs i y ys h j =
      let e : i + 1 + j ≡ i + suc j = omega arith in ap (get_elem? xs) e ∙ h (suc j)

  pub StandsAt-elem :
      (xs : List A) (i : ℕ) (y : A) (ys : List A) → StandsAt xs i (y ∷ ys) → get_elem? xs i ≡ some y
  StandsAt-elem xs i y ys h = let e : i + 0 ≡ i = omega arith in ap (get_elem? xs) (sym e) ∙ h 0

module _ {ℓ} {A : Type ℓ} where
  -- The items of all batches, in order.
  abbrev pub items_of : List (List A) → List A
  items_of [] = []
  items_of (b ∷ bs) = b ++ items_of bs

  pub items_of-append : (xs ys : List (List A)) → items_of (xs ++ ys) ≡ items_of xs ++ items_of ys
  items_of-append [] ys = refl
  items_of-append (b ∷ bs) ys =
      ap (λ l. b ++ l) (items_of-append bs ys) ∙ sym (append_assoc b (items_of bs) (items_of ys))

-- A list with an item in its middle, and without it.
pub middle_length {ℓ} :
    {A : Type ℓ} (l before : List A) (y : A) (after : List A)
    → l ≡ before ++ (y ∷ after)
    → length l ≡ length (before ++ after) + 1
middle_length l before y after e =
    omega (arith, ap length e, length-append before (y ∷ after), length-append before after)

pub length-zero {ℓ} : {A : Type ℓ} (l : List A) → length l ≡ 0 → l ≡ []
length-zero [] e = refl
length-zero (x ∷ l) e = absurd (omega (arith, e))

module _ {ℓ} {T : Type ℓ} where
  -- What holds of every place of a list.
  pub All-places :
      (P : T → Type 0) (xs : List T)
      → ((before : List T) (a : T) (after : List T) → xs ≡ before ++ (a ∷ after) → P a)
      → All P xs
  All-places P [] h = tt
  All-places P (x ∷ xs) h =
      (h [] x xs refl, All-places P xs λ before a after e. h (x ∷ before) a after (ap (◌∷◌ x) e))

  pub All-at :
      (P : T → Type 0) (before : List T) (a : T) (after : List T)
      → All P (before ++ (a ∷ after))
      → P a
  All-at P [] a after (p, h) = p
  All-at P (x ∷ before) a after (p, h) = All-at P before a after h

-- Lists of no item or one.
module _ {ℓ} {T : Type ℓ} where
  pub both_nil : (xs ys : List T) → xs ++ ys ≡ [] → (xs ≡ []) × (ys ≡ [])
  both_nil [] ys e = (refl, e)
  both_nil (x ∷ xs) ys e = cc

  pub single :
      (xs ys : List T) (p q : T) → xs ++ (p ∷ ys) ≡ q ∷ [] → (xs ≡ []) × (ys ≡ []) × (p ≡ q)
  single [] ys p q e = (refl, cc, cc)
  single (x ∷ []) ys p q e = cc
  single (x ∷ (y ∷ xs)) ys p q e = cc

  pub not_nil : (xs ys : List T) (p : T) → xs ++ (p ∷ ys) ≢ []
  not_nil xs ys p e = let (_, e') = both_nil xs (p ∷ ys) e in cc

  pub only : {xs ys : List T} (p : T) → xs ≡ [] → ys ≡ [] → xs ++ (p ∷ ys) ≡ p ∷ []
  only p e e' = rw (e, e') refl

  pub nothing : {xs ys : List T} → xs ≡ [] → ys ≡ [] → xs ++ ys ≡ []
  nothing e e' = rw (e, e') refl
