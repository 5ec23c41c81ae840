-- ===== src/Tests/Scanning.antt =====
-- A run of SearchSpaces.Scan with one worker and two spaces.
use ddrop.Base.{ℕ, ◌≡◌, refl, true, false, some, [], ◌∷◌}
use ddrop.Base.Int.{pos, ◌+ℤ◌}
use ddrop.Float.{whole_float}
use ddrop.Knnc.SearchSpace
use ddrop.Knnc.SearchSpace.{SearchSpace}
use ddrop.Knnc.SearchSpaces
use ddrop.Knnc.Workers.{stage_ok, worker_ok}
use ddrop.Knnc.SearchSpaces.{SearchSpaces, SpacesScanArgs, inherited}
use ddrop.Knnc.SearchSpaces.Scanning.{
  Surroundings, Place, scan_start, scan_spaces, Producer, ScanStep, ScanRun,
}
use ddrop.Knnc.SearchSpaces.Scanning.Limits.{WithinLimits, ScanRun-WithinLimits}

abbrev space : ℕ → SearchSpace ℕ
space n = record { vec_dim = 1; capacity = 2; items = n ∷ [] }

abbrev pub spaces : SearchSpaces ℕ
spaces = record {
  spaces = space 3 ∷ (space 4 ∷ []);
  capacity = 2;
  max_cap = pos 2;
  uniform_dim = 1;
  maintenance_interval = pos 1;
  maintenance_active = true;
}

abbrev scan_args : SpacesScanArgs ℕ
scan_args = record {
  extent = 1;
  stage = record {
    n_workers = pos 1;
    worker = record { buf = pos 0; cancel_made = true; ttl = pos 9 };
  };
}

abbrev two_started : Producer ℕ
two_started = record {
  place = Place.started (space 4);
  pending = [];
  passed_on = space 3 ∷ [];
  ticker = record { added = 2; taken_off = 1 };
  running = 2;
}

-- A receiver that takes every channel, and scanners that go on.
abbrev eager_reader : Surroundings ℕ
eager_reader = record { takes = λ p. true; signalled = λ p. false; scanner_leaves = λ p. false }

-- With one worker, two scanners run: the second starts while the ticker is at 1.
two_run : ScanRun eager_reader (pos 1) (scan_start spaces) two_started
unfolding scan_start ◌+ℤ◌
two_run =
    ScanRun.goes_on
      (ScanRun.goes_on
        (ScanRun.goes_on
          (ScanRun.goes_on ScanRun.begins (ScanStep.starts (space 3) (space 4 ∷ []) refl refl refl))
          (ScanStep.counts (space 3) refl))
        (ScanStep.passes_on (space 3) refl refl))
      (ScanStep.starts (space 4) [] refl refl refl)

starts_spaces : scan_spaces spaces scan_args ≡ some (scan_start spaces)
unfolding scan_spaces SearchSpaces.scan_ok SearchSpace.scan_ok inherited stage_ok worker_ok
starts_spaces = refl

ScanRun-WithinLimits_example : WithinLimits 1 spaces.spaces two_started
ScanRun-WithinLimits_example =
    ScanRun-WithinLimits spaces scan_args eager_reader (scan_start spaces) two_started 1
      starts_spaces refl two_run
