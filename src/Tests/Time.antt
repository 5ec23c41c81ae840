-- ===== src/Tests/Time.antt =====
-- Runs of the latency tracker and of the timed list of the monitor.
use ddrop.Base.{ℕ, ◌==◌, if◌then◌else◌, ◌*◌, ◌<◌, ◌≡◌, refl, [], ◌∷◌, arith, length, take}
use ddrop.Base.Int.{pos, leb_ℤ, ◌*ℤ◌, ◌/ℤ◌}
use ddrop.Timex.{Link, LatencyTracker, NewLatencyTrackerArgs, args_ok, maintain, average}
use ddrop.Timex.Chain.{IsValid, maintained, maintain-IsValid}
use ddrop.Timex.Window.{window, registrations_of, latency_of, average-eq-window}

abbrev tracker_args : NewLatencyTrackerArgs
tracker_args = record {
  max_chain_link_n = pos 2;
  min_chain_link_size = pos 10;
  standard_period = pos 20;
}

abbrev link : ℕ → ℕ → Link
link t n = record { created = t; cumulative_latency = pos (n * 4); n_waiters = n }

abbrev tracker : LatencyTracker
tracker = record { chain = link 30 2 ∷ (link 15 1 ∷ []); cfg = tracker_args }

tracker-IsValid : IsValid tracker
unfolding args_ok
tracker-IsValid = record { configured = refl; bounded = omega arith; spaced = (omega arith, tt) }

maintain-IsValid_example :
    let lt' = maintain tracker 44 45 46 in
    IsValid lt'
    × (0 < length lt'.chain)
    × (lt'.cfg ≡ tracker_args)
    × (lt'.chain ≡ take 2 (maintained tracker 44 45 46))
maintain-IsValid_example = maintain-IsValid tracker 44 45 46 (omega arith) tracker-IsValid

average-eq-window_example :
    let r = average tracker (pos 20) 43 44 45 46 in
    let lt' = maintain tracker 44 45 46 in
    let links = window 43 (pos 20) lt'.chain in
    let n = registrations_of links in
    (r.0.0 ≡ (if n == 0 then pos 0 else ◌/ℤ◌ (latency_of (pos 0) links) n))
    × (r.0.1 ≡ leb_ℤ (pos 20) (tracker_args.min_chain_link_size *ℤ tracker_args.max_chain_link_n))
    × (r.1 ≡ lt')
average-eq-window_example =
    average-eq-window tracker (pos 20) 43 44 45 46 (omega arith) tracker-IsValid
