-- ===== src/Knnc/SearchSpaces/Loop.antt =====
-- StartMaintenance, StopMaintenance and the loops that they start: the flag `maintenanceActive`
-- and the goroutines, as a step relation. A goroutine sleeps and then reads the flag under the
-- lock; one that read false leaves in a second step, which clears the flag once more.
use ddrop.Base.{
  ℕ, suc, ◌+◌, ◌<◌, ◌≡◌, refl, Bool, true, false, arith, ap, ◌∙◌, List, [], ◌∷◌, if◌then◌else◌,
}

pub record Maintenance : Type 0 where
  pub active : Bool
  pub looping : ℕ
  pub leaving : ℕ

abbrev pub idle : Maintenance
idle = record { active = false; looping = 0; leaving = 0 }

-- StartMaintenance
pub start : Maintenance → Maintenance
start m = if m.active then m else record m { active = true; looping = m.looping + 1 }

-- StopMaintenance
pub stop : Maintenance → Maintenance
stop m = record m { active = false }

-- The steps other than StopMaintenance. A loop's round goes on while the flag is set.
pub data Quiet (m : Maintenance) : Maintenance → Type 0 where
  starts : Quiet m (start m)
  round : 0 < m.looping → m.active ≡ true → Quiet m m
  reads_stop :
      {looping : ℕ}
      → m.looping ≡ suc looping
      → m.active ≡ false
      → Quiet m (record m { looping = looping; leaving = m.leaving + 1 })
  leaves :
      {leaving : ℕ}
      → m.leaving ≡ suc leaving
      → Quiet m (record m { active = false; leaving = leaving })

-- Runs without a call of StopMaintenance, and runs with any calls.
pub data Unstopped (m : Maintenance) : Maintenance → Type 0 where
  here : Unstopped m m
  next : {u v : Maintenance} → Unstopped m u → Quiet u v → Unstopped m v

pub data Run (m : Maintenance) : Maintenance → Type 0 where
  done : Run m m
  steps : {u v : Maintenance} → Run m u → Quiet u v → Run m v
  stops : {u : Maintenance} → Run m u → Run m (stop u)

-- As long as nobody stops: one loop where the flag is set, none otherwise, and none leaving.
abbrev pub IsSingle : Maintenance → Type 0
IsSingle m = (m.leaving ≡ 0) × (m.looping ≡ (if m.active then 1 else 0))

Quiet-IsSingle : {u v : Maintenance} → Quiet u v → IsSingle u → IsSingle v
unfolding start
Quiet-IsSingle starts h = ground arith
Quiet-IsSingle (round p e) h = h
Quiet-IsSingle (reads_stop p e) h = ground arith
Quiet-IsSingle (leaves e) h = ground arith

-- However often StartMaintenance is called, until StopMaintenance is called there is one loop where
-- maintenance is active, none otherwise, and none that leaves.
pub Unstopped-IsSingle : {m : Maintenance} → Unstopped idle m → IsSingle m
Unstopped-IsSingle here = (refl, refl)
Unstopped-IsSingle (next r s) = Quiet-IsSingle s (Unstopped-IsSingle r)

-- A call of StartMaintenance or of StopMaintenance.
pub data Call : Type 0 where
  start_call stop_call : Call

-- The state after some calls before any loop wakes.
abbrev pub called : Maintenance → List Call → Maintenance
called m [] = m
called m (start_call ∷ calls) = called (start m) calls
called m (stop_call ∷ calls) = called (stop m) calls

-- How often the calls start maintenance when it is not active.
abbrev pub restarts : Bool → List Call → ℕ
restarts active [] = 0
restarts true (start_call ∷ calls) = restarts true calls
restarts false (start_call ∷ calls) = suc (restarts true calls)
restarts active (stop_call ∷ calls) = restarts false calls

start-lem :
    (m : Maintenance)
    → ((start m).active ≡ true)
      × ((start m).looping ≡ m.looping + (if m.active then 0 else 1))
      × ((start m).leaving ≡ m.leaving)
unfolding start
start-lem m = ground arith

restarts-start :
    (active : Bool) (calls : List Call)
    → restarts active (start_call ∷ calls) ≡ (if active then 0 else 1) + restarts true calls
restarts-start true calls = omega arith
restarts-start false calls = omega arith

restarts-stop :
    (active : Bool) (calls : List Call) → restarts active (stop_call ∷ calls) ≡ restarts false calls
restarts-stop true calls = refl
restarts-stop false calls = refl

stop-lem :
    (m : Maintenance)
    → ((stop m).active ≡ false) × ((stop m).looping ≡ m.looping) × ((stop m).leaving ≡ m.leaving)
unfolding stop
stop-lem m = (refl, refl, refl)

Run-called : (m u : Maintenance) (calls : List Call) → Run m u → Run m (called u calls)
Run-called m u [] r = r
Run-called m u (start_call ∷ calls) r = Run-called m (start u) calls (steps r starts)
Run-called m u (stop_call ∷ calls) r = Run-called m (stop u) calls (stops r)

called-looping :
    (m : Maintenance) (calls : List Call)
    → ((called m calls).looping ≡ m.looping + restarts m.active calls)
      × ((called m calls).leaving ≡ m.leaving)
called-looping m [] = (omega arith, refl)
called-looping m (start_call ∷ calls) =
    let (on, more, leaving) = start-lem m in
    let (found, left) = called-looping (start m) calls in
    (
      omega (arith, found, more, ap (λ b. restarts b calls) on, restarts-start m.active calls),
      left ∙ leaving,
    )
called-looping m (stop_call ∷ calls) =
    let (off, same, leaving) = stop-lem m in
    let (found, left) = called-looping (stop m) calls in
    (
      omega (arith, found, same, ap (λ b. restarts b calls) off, restarts-stop m.active calls),
      left ∙ leaving,
    )

-- Calls that come before any loop wakes: each StartMaintenance that finds maintenance stopped starts
-- one loop more, one that finds it active starts none, and no StopMaintenance ends a loop. So the
-- loops that run at once are as many as there were loops before and such restarts, which a run
-- reaches.
pub called-loops :
    (m : Maintenance) (calls : List Call)
    → Run m (called m calls)
      × ((called m calls).looping ≡ m.looping + restarts m.active calls)
      × ((called m calls).leaving ≡ m.leaving)
called-loops m calls =
    let (looping, leaving) = called-looping m calls in (Run-called m m calls done, looping, leaving)
