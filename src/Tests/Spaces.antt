-- ===== src/Tests/Spaces.antt =====
-- Runs of the search spaces and of the stages of pkg/knnc.
use mathlib.Core.List.{filter_map}
use ddrop.Base.{
  ℕ, ◌+◌, ◌*◌, ◌/◌, ◌%◌, ◌≤◌, ◌<◌, ◌≡◌, refl, ◌⊎◌, true, Option, none, some, List, [], ◌∷◌, ◌++◌,
  Perm, arith, ap, length, length-append, ltb, if◌then◌else◌,
}
use ddrop.Base.Int.{pos}
use ddrop.Float.{whole_float, ℕ-IsShared}
use ddrop.Knnc.Items.{Container, ScoreItem}
use ddrop.Knnc.Workers.{BaseWorkerArgs, BaseStageArgs}
use ddrop.Knnc.SearchSpace
use ddrop.Knnc.SearchSpace.{SearchSpace, ScanArgs, scan}
use ddrop.Knnc.SearchSpace.Invariant
use ddrop.Knnc.SearchSpace.Invariant.{AddOutcome, add_searchable-IsValid, live_at, clean-eq-live_at}
use ddrop.Knnc.SearchSpace.Coverage.{sent_from, live_items, check_n, scan-eq-sent, scan-eq-live}
use ddrop.Knnc.SearchSpaces
use ddrop.Knnc.SearchSpaces.{SearchSpaces, step}
use ddrop.Knnc.SearchSpaces.Additions
use ddrop.Knnc.SearchSpaces.Additions.{Holds, Result, add_searchable-Result}
use ddrop.Knnc.SearchSpaces.Cleaning.{step-Valid}
use ddrop.Knnc.SearchSpaces.Loop.{idle, Run, Call, start_call, stop_call, called, called-loops}
use ddrop.Knnc.Stages.{Pool, start_pool, Step, Run as PoolRun, MergeStagePartialArgs}
use ddrop.Knnc.Stages.Delivery.{moves_left, steps, Run-delivers}
use ddrop.Requestman.Containers.{DistancerContainer, distancer, containers, containers-IsStable}

abbrev Vec : Type 0
Vec = List ℕ

abbrev with_dim : Container (DistancerContainer Vec) Vec
with_dim = containers length

abbrev one_two : Vec
one_two = 1 ∷ 2 ∷ []

abbrev lasting : DistancerContainer Vec
lasting = record { d = some one_two; expires = none }

abbrev until_five : DistancerContainer Vec
until_five = record { d = some one_two; expires = some 5 }

abbrev two_items : List (DistancerContainer Vec)
two_items = lasting ∷ (until_five ∷ [])

abbrev space : SearchSpace (DistancerContainer Vec)
space = record { items = two_items; capacity = 3; vec_dim = 2 }

space-IsValid : Invariant.IsValid with_dim space
unfolding distancer
space-IsValid = record {
  has_room = omega arith;
  bounded = omega arith;
  uniform = (
    λ t d e. (containers-IsStable length).dim_eq lasting t 0 d one_two e refl,
    (λ t d e. (containers-IsStable length).dim_eq until_five t 0 d one_two e refl, tt),
  );
}

add_searchable-IsValid_example :
    let r = SearchSpace.add_searchable with_dim space (some until_five) 3 in
    Invariant.IsValid with_dim r.0 × AddOutcome with_dim space (some until_five) 3 r
add_searchable-IsValid_example =
    add_searchable-IsValid with_dim space (some until_five) 3 (containers-IsStable length)
      space-IsValid

abbrev worker : BaseWorkerArgs
worker = record { buf = pos 1; cancel_made = true; ttl = pos 9 }

abbrev scan_args : ScanArgs ℕ
scan_args = record { extent = 1; worker = worker }

abbrev clock : ℕ → ℕ
clock k = k + 3

scan_args_ok : SearchSpace.scan_ok scan_args ≡ true
unfolding SearchSpace.scan_ok
scan_args_ok = refl

scan-eq-sent_example :
    let l = length two_items in
    let c = check_n with_dim space scan_args in
    (0 < c)
    × (c ≤ l)
    × (scan with_dim 3 space scan_args clock (λ k. true)
        ≡ some (some (sent_from with_dim two_items clock (λ k. true) (l / c) (l % c) 0 c)))
scan-eq-sent_example =
    scan-eq-sent with_dim ℕ-IsShared 3 space scan_args clock (λ k. true) scan_args_ok (omega arith)
      (omega arith)

scan-eq-live_example :
    scan with_dim 3 space scan_args clock (λ k. true)
    ≡ some (some (live_items with_dim clock 0 two_items))
scan-eq-live_example =
    scan-eq-live with_dim ℕ-IsShared 3 space scan_args clock scan_args_ok (omega arith)
      (omega arith) refl

abbrev collection : SearchSpaces (DistancerContainer Vec)
collection = record {
  spaces = space ∷ [];
  capacity = 2;
  max_cap = pos 3;
  uniform_dim = 2;
  maintenance_interval = pos 1;
  maintenance_active = true;
}

collection-IsValid : Additions.IsValid with_dim collection
collection-IsValid = record {
  bounded = omega arith;
  each = (record { valid = space-IsValid; filled = omega arith; dim_eq = refl }, tt);
}

add_searchable-Result_example :
    Result with_dim collection
      (SearchSpaces.add_searchable with_dim collection (some until_five) clock)
add_searchable-Result_example =
    add_searchable-Result with_dim collection (some until_five) clock (containers-IsStable length)
      collection-IsValid

step-Valid_example :
    let r = step with_dim collection 1 (λ k. 7) in
    Additions.IsValid with_dim r.0
    × (length r.0.spaces ≤ length collection.spaces)
    × (length collection.spaces ≤ length r.0.spaces + 1)
    × (((length collection.spaces ≡ 0) × (r.1 ≡ 1)) ⊎ (r.1 ≤ length r.0.spaces))
    × (r.2 ≡ collection.maintenance_active)
step-Valid_example = step-Valid with_dim collection 1 (λ k. 7) collection-IsValid

-- Two starts, and a stop and a start before the loop wakes.
abbrev calls : List Call
calls = start_call ∷ (start_call ∷ (stop_call ∷ (start_call ∷ [])))

called-loops_example :
    Run idle (called idle calls)
    × ((called idle calls).looping ≡ 2)
    × ((called idle calls).leaving ≡ 0)
called-loops_example = called-loops idle calls

-- One worker of a stage that keeps a number above 1 and doubles it.
abbrev outcome : ℕ → Option ℕ
outcome n = if ltb n 2 then none else some (n * 2)

abbrev finished : Pool ℕ ℕ
finished = record { queue = []; idle = 1; held = []; output = 6 ∷ []; dropped = [] }

to_finished : PoolRun outcome (start_pool (3 ∷ (1 ∷ [])) 1) finished
unfolding start_pool
to_finished =
    PoolRun.then_step
      (PoolRun.then_step
        (PoolRun.then_step PoolRun.still (Step.take _ 3 (1 ∷ []) 0 6 refl refl refl))
        (Step.send _ [] 6 [] refl))
      (Step.skip _ 1 [] 0 refl refl refl)

Run-delivers_example :
    Perm ([] ++ ((6 ∷ []) ++ ([] ++ filter_map outcome []))) (filter_map outcome (3 ∷ (1 ∷ [])))
    × (1 + 0 + 0 ≡ 1)
    × (steps outcome to_finished + moves_left outcome finished ≤ 2 * 2)
Run-delivers_example = Run-delivers outcome (3 ∷ (1 ∷ [])) 1 finished to_finished

no_middle : (before : List ℕ) (y : ℕ) (after : List ℕ) → [] ≡ before ++ (y ∷ after) → ⊥
no_middle before y after e = omega (arith, ap length e, length-append before (y ∷ after))

finished_stuck : (q : Pool ℕ ℕ) → ¬ Step outcome finished q
finished_stuck q (Step.skip _ x xs n e i o) = cc
finished_stuck q (Step.take _ x xs n y e i o) = cc
finished_stuck q (Step.send _ before y after e) = no_middle before y after e
finished_stuck q (Step.abort _ before y after e) = no_middle before y after e

abbrev pub stage_args : BaseStageArgs
stage_args = record { n_workers = pos 1; worker = worker }

abbrev merge_args : MergeStagePartialArgs
merge_args = record { k = pos 1; ascending = true; send_interval = pos 2; stage = stage_args }

abbrev scored : ℕ → ScoreItem ℕ Vec
scored n = record { distancer = some one_two; score = n; set = true }

abbrev three_scored : List (ScoreItem ℕ Vec)
three_scored = scored 4 ∷ (scored 2 ∷ (scored 3 ∷ []))
