-- ===== src/Knnc/SearchSpaces/Scanning/Limits.antt =====
-- How many scanners SearchSpaces.Scan lets run at a time, and which channels it passes on.
use mathlib.Core.List.{append_assoc}
use ddrop.Base.{ℕ, ◌+◌, ◌≤◌, ◌≡◌, refl, sym, ap, ◌∙◌, none, some, List, [], ◌∷◌, ◌++◌, arith, subst}
use ddrop.Base.Int.{pos, ◌+ℤ◌}
use ddrop.Knnc.SearchSpace.{SearchSpace}
use ddrop.Float.{Float}
use ddrop.Knnc.SearchSpaces.{SearchSpaces, SpacesScanArgs}
use ddrop.Knnc.SearchSpaces.Scanning.{
  Surroundings, scan_start, scan_spaces, Place, Producer, ScanStep, ScanRun,
}

module _ {ℓ} {C : Type ℓ} where
  -- The scanners that run and that the ticker has not counted yet.
  abbrev uncounted : Place C → ℕ
  uncounted Place.at_head = 0
  uncounted (Place.started s) = 1
  uncounted (Place.selecting s) = 0
  uncounted (Place.returned o) = 0

  -- The search spaces that the producer has not passed on, where it still means to or gave up.
  abbrev not_passed : Place C → List (SearchSpace C) → List (SearchSpace C)
  not_passed Place.at_head pending = pending
  not_passed (Place.started s) pending = s ∷ pending
  not_passed (Place.selecting s) pending = s ∷ pending
  not_passed (Place.returned none) pending = []
  not_passed (Place.returned (some s)) pending = s ∷ pending

  pub record WithinLimits (n : ℕ) (spaces : List (SearchSpace C)) (p : Producer C) : Type ℓ where
    pub counted : p.ticker.added + uncounted p.place ≡ p.running + p.ticker.taken_off
    pub limited : p.running ≤ n + 1
    pub in_order : p.passed_on ++ not_passed p.place p.pending ≡ spaces

  module _ (others : Surroundings C) (n : ℕ) (spaces : List (SearchSpace C)) where
    in_order_at :
        (p : Producer C) (at : Place C)
        → p.place ≡ at
        → WithinLimits n spaces p
        → p.passed_on ++ not_passed at p.pending ≡ spaces
    in_order_at p at e w =
        sym (ap (λ place. p.passed_on ++ not_passed place p.pending) e) ∙ w.in_order

    ScanStep-WithinLimits :
        {p q : Producer C}
        → ScanStep others (pos n) p q
        → WithinLimits n spaces p
        → WithinLimits n spaces q
    unfolding ◌+ℤ◌
    ScanStep-WithinLimits {p} (ScanStep.starts s pending e e' below) w =
        let count = ap uncounted e in
        record {
          counted = omega (arith, count, w.counted);
          limited = ground (arith, count, w.counted, below);
          in_order = sym (ap (λ l. p.passed_on ++ l) e') ∙ in_order_at p Place.at_head e w;
        }
    ScanStep-WithinLimits {p} (ScanStep.counts s e) w = record {
      counted = omega (arith, ap uncounted e, w.counted);
      limited = w.limited;
      in_order = in_order_at p (Place.started s) e w;
    }
    ScanStep-WithinLimits {p} (ScanStep.passes_on s e taken) w = record {
      counted = omega (arith, ap uncounted e, w.counted);
      limited = w.limited;
      in_order =
          append_assoc p.passed_on (s ∷ []) p.pending ∙ in_order_at p (Place.selecting s) e w;
    }
    ScanStep-WithinLimits {p} (ScanStep.gives_up s e late) w = record {
      counted = omega (arith, ap uncounted e, w.counted);
      limited = w.limited;
      in_order = in_order_at p (Place.selecting s) e w;
    }
    ScanStep-WithinLimits {p} (ScanStep.ends e e') w = record {
      counted = omega (arith, ap uncounted e, w.counted);
      limited = w.limited;
      in_order = sym (ap (λ l. p.passed_on ++ l) e') ∙ in_order_at p Place.at_head e w;
    }
    ScanStep-WithinLimits (ScanStep.scanner_ends m e left) w = record {
      counted = omega (arith, w.counted, e);
      limited = omega (arith, w.limited, e);
      in_order = w.in_order;
    }

    ScanRun-keeps :
        {p q : Producer C}
        → ScanRun others (pos n) p q
        → WithinLimits n spaces p
        → WithinLimits n spaces q
    ScanRun-keeps ScanRun.begins w = w
    ScanRun-keeps (ScanRun.goes_on r step) w = ScanStep-WithinLimits step (ScanRun-keeps r w)

  start-WithinLimits : (n : ℕ) (ss : SearchSpaces C) → WithinLimits n ss.spaces (scan_start ss)
  unfolding scan_start
  start-WithinLimits n ss = record { counted = refl; limited = omega arith; in_order = refl }

module _ {ℓ κ} {F : Type ℓ} ⦃f : Float F⦄ {C : Type κ} (ss : SearchSpaces C)
    (args : SpacesScanArgs F) (others : Surroundings C) (start p : Producer C) (n : ℕ) where
  scan_spaces-eq : scan_spaces ss args ≡ some start → scan_start ss ≡ start
  unfolding scan_spaces
  scan_spaces-eq e = ground arith

  -- While Scan of a collection runs, whatever the others do, the ticker, once it has counted the scanner that was started
  -- last, holds the number of running scanners; at most one more than NWorkers run at a time; and
  -- what was passed on and what is still to come are the collection's spaces in order.
  pub ScanRun-WithinLimits :
      scan_spaces ss args ≡ some start
      → args.stage.n_workers ≡ pos n
      → ScanRun others (pos n) start p
      → WithinLimits n ss.spaces p
  ScanRun-WithinLimits e workers r =
      ScanRun-keeps others n ss.spaces r
        (subst (WithinLimits n ss.spaces) (scan_spaces-eq e) (start-WithinLimits n ss))
