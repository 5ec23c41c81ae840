-- ===== src/Knnc/SearchSpaces/Cleaning.antt =====
-- Clean and the steps of the maintenance loop keep the collection valid.
use ddrop.Base.{
  ℕ, zero, suc, ◌+◌, ◌≤◌, ◌≡◌, refl, ◌∙◌, inl, inr, ◌⊎◌, false, List, [], ◌∷◌, arith, length, All,
  leb, ◌==◌, if◌then◌else◌, Bool-cases,
}
use ddrop.Knnc.Items.{Container}
use ddrop.Knnc.SearchSpace
use ddrop.Knnc.SearchSpace.{SearchSpace}
use ddrop.Knnc.SearchSpace.Invariant.{clean-IsValid, dim-clean}
use ddrop.Knnc.SearchSpaces.{SearchSpaces, clean_spaces, clean, clean_at, step}
use ddrop.Knnc.SearchSpaces.Additions.{Holds, IsValid}

module _ {ℓ κ} {C : Type ℓ} {D : Type κ} (i : Container C D) where
  clean-Holds :
      (s : SearchSpace C) (clock : ℕ → ℕ) (n : ℕ)
      → Holds i n s
      → (SearchSpace.len (SearchSpace.clean i s clock) == 0) ≡ false
      → Holds i n (SearchSpace.clean i s clock)
  unfolding SearchSpace.len
  clean-Holds s clock n h kept = record {
    valid = clean-IsValid i s clock h.valid;
    filled = ground arith;
    dim_eq = dim-clean i s clock ∙ h.dim_eq;
  }

  clean_spaces-Holds :
      (spaces : List (SearchSpace C)) (clock : ℕ → ℕ) (n : ℕ)
      → All (Holds i n) spaces
      → All (Holds i n) (clean_spaces i spaces clock)
        × (length (clean_spaces i spaces clock) ≤ length spaces)
  unfolding clean_spaces
  clean_spaces-Holds [] clock n h = (tt, omega arith)
  clean_spaces-Holds (s ∷ spaces) clock n (h, hs) =
      let (all, less) = clean_spaces-Holds spaces (λ k. clock (k + SearchSpace.len s)) n hs in
      elim (Bool-cases (SearchSpace.len (SearchSpace.clean i s clock) == 0)) [
        | inl gone ↦ rw gone (all, omega arith)
        | inr kept ↦ rw kept ((clean-Holds s clock n h kept, all), omega arith)
      ]

  clean_at-Holds :
      (spaces : List (SearchSpace C)) (cursor : ℕ) (clock : ℕ → ℕ) (n : ℕ)
      → All (Holds i n) spaces
      → let r = clean_at i spaces cursor clock in
        All (Holds i n) r.0 × (length r.0 + (if r.1 then 1 else 0) ≡ length spaces)
  unfolding clean_at
  clean_at-Holds [] cursor clock n h = (tt, omega arith)
  clean_at-Holds (s ∷ spaces) zero clock n (h, hs) =
      elim (Bool-cases (SearchSpace.len (SearchSpace.clean i s clock) == 0)) [
        | inl gone ↦ rw gone (hs, omega arith)
        | inr kept ↦ rw kept ((clean-Holds s clock n h kept, hs), omega arith)
      ]
  clean_at-Holds (s ∷ spaces) (suc cursor) clock n (h, hs) =
      let (all, count) = clean_at-Holds spaces cursor clock n hs in ((h, all), omega arith)

  -- Clean keeps a collection valid: no empty space is left.
  pub clean-Valid :
      (ss : SearchSpaces C) (clock : ℕ → ℕ) → IsValid i ss → IsValid i (clean i ss clock)
  unfolding clean
  clean-Valid ss clock v =
      let (all, less) = clean_spaces-Holds ss.spaces clock ss.uniform_dim v.each in
      record { bounded = omega (arith, less, v.bounded); each = all }

  -- A step of the maintenance loop keeps the collection valid, removes one space at most, and
  -- goes on as long as maintenance is active. Where there are spaces it leaves the cursor within
  -- them or just behind them; where there are none it leaves it as it is.
  pub step-Valid :
      (ss : SearchSpaces C) (cursor : ℕ) (clock : ℕ → ℕ)
      → IsValid i ss
      → let r = step i ss cursor clock in
        IsValid i r.0
        × (length r.0.spaces ≤ length ss.spaces)
        × (length ss.spaces ≤ length r.0.spaces + 1)
        × (((length ss.spaces ≡ 0) × (r.1 ≡ cursor)) ⊎ (r.1 ≤ length r.0.spaces))
        × (r.2 ≡ ss.maintenance_active)
  unfolding step
  step-Valid ss cursor clock v =
      let cursor' = (if leb (length ss.spaces) cursor then 0 else cursor) in
      let (all, count) = clean_at-Holds ss.spaces cursor' clock ss.uniform_dim v.each in
      elim (Bool-cases (length ss.spaces == 0)) [
        | inl empty ↦ rw empty (v, omega arith, omega arith, inl (ground arith, refl), refl)
        | inr filled ↦ rw filled (
          record { bounded = ground (arith, count); each = all },
          ground (arith, count),
          ground (arith, count),
          inr (ground (arith, count)),
          refl,
        )
      ]
