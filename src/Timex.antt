-- ===== src/Timex.antt =====
-- pkg/timex/latencytrack.go: the chain of links that tracks latency over windows of time, newest
-- link first. An instant is a number of nanoseconds and a duration an integer; each reading of the
-- clock is an argument, in the order of the readings. Overflow of int64 is not modelled.
pub mod Chain
pub mod Window
use ddrop.Base.{
  ℕ, zero, suc, ◌+◌, Bool, true, false, ◌&&◌, Option, none, some, List, [], ◌∷◌, if◌then◌else◌,
  ◌==◌,
}
use ddrop.Base.Int.{ℤ, pos, sub_ℕ, ltb_ℤ, leb_ℤ, ◌+ℤ◌, ◌*ℤ◌, ◌/ℤ◌}

pub record Link : Type 0 where
  pub created : ℕ
  pub cumulative_latency : ℤ
  pub n_waiters : ℕ

pub record NewLatencyTrackerArgs : Type 0 where
  pub max_chain_link_n : ℤ
  pub min_chain_link_size : ℤ
  pub standard_period : ℤ

unfoldable pub args_ok : NewLatencyTrackerArgs → Bool
args_ok args = ltb_ℤ (pos 0) args.max_chain_link_n && ltb_ℤ (pos 0) args.min_chain_link_size

pub record LatencyTracker : Type 0 where
  pub chain : List Link
  pub cfg : NewLatencyTrackerArgs

pub new_latency_tracker : NewLatencyTrackerArgs → Option LatencyTracker
unfolding args_ok
new_latency_tracker args = if args_ok args then some (record { chain = []; cfg = args }) else none

unfoldable config : LatencyTracker → NewLatencyTrackerArgs
config lt = lt.cfg

abbrev pub fresh : ℕ → Link
fresh t = record { created = t; cumulative_latency = pos 0; n_waiters = 0 }

-- The loop that trims the tail, at the n-th link.
pub trim_tail : ℤ → ℕ → List Link → List Link
trim_tail max_n n [] = []
trim_tail max_n n (current ∷ next) =
    let rest = trim_tail max_n (n + 1) next in
    if leb_ℤ max_n (pos n) then current ∷ [] else current ∷ rest

pub add_head : List Link → ℕ → List Link
add_head [] t0 = fresh t0 ∷ []
add_head (head ∷ next) t0 = head ∷ next

pub renew_head : ℤ → List Link → ℕ → ℕ → List Link
renew_head size [] t1 t2 = []
renew_head size (head ∷ next) t1 t2 =
    if leb_ℤ size (sub_ℕ t1 head.created) then fresh t2 ∷ head ∷ next else head ∷ next

-- The clock is read for a first head, for the age of the head, and for a new head.
unfoldable pub maintain : LatencyTracker → ℕ → ℕ → ℕ → LatencyTracker
unfolding trim_tail add_head renew_head
maintain lt t0 t1 t2 = record lt {
  chain =
      trim_tail lt.cfg.max_chain_link_n 1
        (renew_head lt.cfg.min_chain_link_size (add_head lt.chain t0) t1 t2);
}

-- A maintained tracker has a head.
unfoldable pub register_head : List Link → ℤ → List Link
register_head [] delta = []
register_head (head ∷ next) delta =
    record head {
      cumulative_latency = head.cumulative_latency +ℤ delta;
      n_waiters = head.n_waiters + 1;
    }
    ∷ next

unfoldable pub register : LatencyTracker → ℤ → ℕ → ℕ → ℕ → LatencyTracker
unfolding maintain register_head
register lt delta t0 t1 t2 =
    let lt' = maintain lt t0 t1 t2 in record lt' { chain = register_head lt'.chain delta }

-- The callback of RegisterCallback(), invoked: the clock was read at `before` and is read at `now`.
unfoldable pub register_callback : LatencyTracker → ℕ → ℕ → ℕ → ℕ → ℕ → LatencyTracker
unfolding register
register_callback lt before now t0 t1 t2 = register lt (sub_ℕ now before) t0 t1 t2

-- The sums of the traversal.
pub record Sums : Type 0 where
  pub cumulative_wait : ℤ
  pub n_waiters : ℕ

abbrev pub add_link : Sums → Link → Sums
add_link s current = record {
  cumulative_wait = s.cumulative_wait +ℤ current.cumulative_latency;
  n_waiters = s.n_waiters + current.n_waiters;
}

pub traverse : ℕ → ℤ → Sums → List Link → Sums
traverse stamp period s [] = s
traverse stamp period s (current ∷ next) =
    let rest = traverse stamp period (add_link s current) next in
    if leb_ℤ (sub_ℕ stamp current.created) period then rest else s

pub quotient : Sums → ℤ
quotient s = if s.n_waiters == 0 then pos 0 else ◌/ℤ◌ s.cumulative_wait s.n_waiters

-- The average and whether the period is within bounds, and the tracker, which Average maintains.
-- The first reading of the clock is the stamp.
unfoldable pub average : LatencyTracker → ℤ → ℕ → ℕ → ℕ → ℕ → (ℤ × Bool) × LatencyTracker
unfolding maintain traverse quotient
average lt period stamp t0 t1 t2 =
    let lt' = maintain lt t0 t1 t2 in
    let max_duration = lt.cfg.min_chain_link_size *ℤ lt.cfg.max_chain_link_n in
    let s = traverse stamp period (record { cumulative_wait = pos 0; n_waiters = 0 }) lt'.chain in
    ((quotient s, leb_ℤ period max_duration), lt')

unfoldable pub average_std : LatencyTracker → ℕ → ℕ → ℕ → ℕ → (ℤ × Bool) × LatencyTracker
unfolding average
average_std lt stamp t0 t1 t2 = average lt lt.cfg.standard_period stamp t0 t1 t2
