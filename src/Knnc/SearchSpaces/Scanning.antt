-- ===== src/Knnc/SearchSpaces/Scanning.antt =====
-- SearchSpaces.Scan: a producer starts one scanner after another and passes their channels on, while
-- the ticker holds it back. A scanner is its search space; it ends by its done callback. What the
-- others do decides whether the producer and the scanners move on: they may wait for good.
pub mod Limits
use ddrop.Base.{
  ℕ, zero, suc, ◌+◌, ◌≡◌, Bool, true, false, not, ◌||◌, Option, none, some, List, [], ◌∷◌, ◌++◌,
  if◌then◌else◌,
}
use ddrop.Base.Int.{ℤ, pos, ◌+ℤ◌}
use ddrop.Float.{Float}
use ddrop.Knnc.SearchSpace
use ddrop.Knnc.SearchSpace.{SearchSpace}
use ddrop.Knnc.SearchSpaces.{SearchSpaces, SpacesScanArgs, scan_ok, inherited}
use ddrop.Knnc.Syncx.{Ticker, new_ticker, add_await, done_await, below_n}

-- Where the producer stands: at the head of its loop, behind the call of Scan, in its select, or at
-- its end, perhaps with a channel that it did not pass on.
pub data Place {ℓ} (C : Type ℓ) : Type ℓ where
  at_head : Place C
  started : SearchSpace C → Place C
  selecting : SearchSpace C → Place C
  returned : Option (SearchSpace C) → Place C

pub record Producer {ℓ} (C : Type ℓ) : Type ℓ where
  pub place : Place C
  pub pending : List (SearchSpace C)
  pub passed_on : List (SearchSpace C)
  pub ticker : Ticker
  pub running : ℕ

-- The state in which the producer starts. AddAwait and its callback leave the ticker at 0.
unfoldable pub scan_start {ℓ} : {C : Type ℓ} → SearchSpaces C → Producer C
scan_start ss = record {
  place = Place.at_head;
  pending = ss.spaces;
  passed_on = [];
  ticker = done_await (add_await new_ticker);
  running = 0;
}

unfoldable pub scan_spaces {ℓ κ} :
    {F : Type ℓ}
    → ⦃f : Float F⦄ → {C : Type κ} → SearchSpaces C
    → SpacesScanArgs F
    → Option (Producer C)
unfolding scan_ok inherited SearchSpace.scan_ok
scan_spaces ss args =
    if not (scan_ok args) || not (SearchSpace.scan_ok (inherited args))
    then none
    else some (scan_start ss)

-- What the others do at a moment of the producer: whether the channel of channels has room or a
-- receiver, whether the cancel signal or the deadline has come, and whether one of the running scanners
-- has left its loop, since its channel was read or since it saw a signal.
pub record Surroundings {ℓ} (C : Type ℓ) : Type ℓ where
  pub takes : Producer C → Bool
  pub signalled : Producer C → Bool
  pub scanner_leaves : Producer C → Bool

module _ {ℓ} {C : Type ℓ} where
  -- The steps with n workers, among any others. The scans of the single spaces are not refused: their arguments were
  -- tested before.
  pub data ScanStep (others : Surroundings C) (n_workers : ℤ) (p : Producer C)
      : Producer C → Type ℓ where
    starts :
        (s : SearchSpace C) (pending : List (SearchSpace C))
        → p.place ≡ Place.at_head
        → p.pending ≡ s ∷ pending
        → below_n p.ticker (n_workers +ℤ pos 1) ≡ true
        → ScanStep others n_workers p
            (record p { place = Place.started s; pending = pending; running = p.running + 1 })
    counts :
        (s : SearchSpace C)
        → p.place ≡ Place.started s
        → ScanStep others n_workers p
            (record p { place = Place.selecting s; ticker = add_await p.ticker })
    passes_on :
        (s : SearchSpace C)
        → p.place ≡ Place.selecting s
        → others.takes p ≡ true
        → ScanStep others n_workers p
            (record p { place = Place.at_head; passed_on = p.passed_on ++ (s ∷ []) })
    gives_up :
        (s : SearchSpace C)
        → p.place ≡ Place.selecting s
        → others.signalled p ≡ true
        → ScanStep others n_workers p (record p { place = Place.returned (some s) })
    ends :
        p.place ≡ Place.at_head
        → p.pending ≡ []
        → ScanStep others n_workers p (record p { place = Place.returned none })
    scanner_ends :
        (running : ℕ)
        → p.running ≡ suc running
        → others.scanner_leaves p ≡ true
        → ScanStep others n_workers p (record p { ticker = done_await p.ticker; running = running })

  pub data ScanRun (others : Surroundings C) (n_workers : ℤ) (p : Producer C)
      : Producer C → Type ℓ where
    begins : ScanRun others n_workers p p
    goes_on :
        {q r : Producer C}
        → ScanRun others n_workers p q
        → ScanStep others n_workers q r
        → ScanRun others n_workers p r
