-- ===== src/Requestman/Containers.antt =====
-- DistancerContainer of service/requestman/requestman.go, which implements the interface of the
-- search spaces: a vector with an instant of expiry. The zero time stands for no expiry.
use ddrop.Base.{ℕ, ◌≡◌, sym, ap, ◌∙◌, Bool, false, Option, none, some, arith, ltb, if◌then◌else◌}
use mathlib.Core.Option.{some-injective}
use ddrop.Knnc.Items.{Container, IsStable}

pub record DistancerContainer {ℓ} (D : Type ℓ) : Type ℓ where
  pub d : Option D
  pub expires : Option ℕ

-- The zero time never expires.
expired : Option ℕ → ℕ → Bool
expired none now = false
expired (some t) now = ltb t now

module _ {ℓ} {D : Type ℓ} where
  unfoldable pub distancer : ℕ → DistancerContainer D → Option D
  unfolding expired
  distancer now c = if expired c.expires now then none else c.d

  distancer-eq :
      (now : ℕ) (c : DistancerContainer D) (x : D) → distancer now c ≡ some x → c.d ≡ some x
  unfolding distancer
  distancer-eq now c x e = ground arith

  module _ (dim : D → ℕ) where
    abbrev pub containers : Container (DistancerContainer D) D
    containers = record { distancer = distancer; dim = dim }

    -- The vector of a container does not change, so its dimension does not.
    pub containers-IsStable : IsStable containers
    containers-IsStable = record {
      dim_eq = λ c t u x y p q.
          ap dim (some-injective _ _ (sym (distancer-eq t c x p) ∙ distancer-eq u c y q));
    }
