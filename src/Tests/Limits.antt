-- ===== src/Tests/Limits.antt =====
-- throttle.go, oplimiter.go and reconciler.go with concrete limits and runs.
use fleeting_plugin_vcd.Base.{◌+◌, ◌≤◌, ◌<◌, ◌≡◌, refl, ◌⊎◌, true, false, List, [], ◌∷◌, arith, leb}
use fleeting_plugin_vcd.Backoff.{constant, constant-IsPaced}
use fleeting_plugin_vcd.Throttle.{new_gate, paused}
use fleeting_plugin_vcd.Throttle.Pause.{rejection, completion, gate_run, pause_ends}
use fleeting_plugin_vcd.Breaker.{
  new_breaker, record_create_failure, record_create_success, is_active,
}
use fleeting_plugin_vcd.Breaker.Trip.{
  Outcome, failure, success, streak, breaker_run, breaker_step, failure_trips,
}
use fleeting_plugin_vcd.Semaphore.{counting, counting-IsSemaphore}
use fleeting_plugin_vcd.Limiter.{
  op_create, op_delete, Limiter, new_limiter, try_acquire, set_create_reserve, last_slot_kept,
  take_slot, kind_sem,
}
use fleeting_plugin_vcd.Limiter.Slots.{Runs, starts, asks, in_use_bounded, create_has_slot}

pause_ends_example :
    paused
      (constant 30)
      45
      (gate_run (constant 30) (rejection 10 ∷ completion ∷ []) (new_gate (constant 30)))
    ≡ false
pause_ends_example =
    pause_ends (constant 30) 30 30 (constant-IsPaced 30) 15 45 (rejection 10 ∷ completion ∷ [])
      (omega arith, tt) (omega arith)

abbrev outcomes : List Outcome
outcomes = failure 1 ∷ success ∷ failure 2 ∷ failure 3 ∷ failure 4 ∷ []

is_active_test :
    is_active (constant 60) 10 (breaker_run (constant 60) outcomes (new_breaker (constant 60)))
    ≡ true
unfolding is_active breaker_run new_breaker record_create_failure breaker_step record_create_success
is_active_test = refl

failure_trips_example :
    is_active (constant 60) 5 (
      record_create_failure
        (constant 60)
        5
        (breaker_run (constant 60) outcomes (new_breaker (constant 60))))
    ≡ leb 3 (streak 0 outcomes + 1)
failure_trips_example =
    failure_trips (constant 60) 60 60 (constant-IsPaced 60) 5 outcomes (omega arith)

-- A limiter of two slots: the first delete gets one, the second is refused.
abbrev two_deletes : Limiter counting
two_deletes =
    (try_acquire counting 6 (new_gate (constant 30)) op_delete
      (try_acquire counting 5 (new_gate (constant 30)) op_delete (new_limiter counting 2 2 2)).0).0

two_deletes_run : Runs counting counting-IsSemaphore (constant 30) 2 2 2 true two_deletes
two_deletes_run =
    asks (asks starts 5 (new_gate (constant 30)) op_delete) 6 (new_gate (constant 30)) op_delete

in_use_bounded_example :
    (two_deletes.creates_in_use + two_deletes.deletes_in_use ≤ 2)
    × (two_deletes.creates_in_use ≤ 2)
    × (two_deletes.deletes_in_use ≤ 2)
    × ((true ≡ false) ⊎ (2 ≤ 1) ⊎ (two_deletes.deletes_in_use < 2))
in_use_bounded_example =
    in_use_bounded counting counting-IsSemaphore (constant 30) 2 2 2 true two_deletes_run

-- With the reserve off, deletes take both slots.
abbrev all_deletes : Limiter counting
all_deletes =
    (try_acquire counting 6 (new_gate (constant 30)) op_delete
      (try_acquire counting 5 (new_gate (constant 30)) op_delete
        (set_create_reserve counting false (new_limiter counting 2 2 2))).0).0

all_deletes_test : all_deletes.deletes_in_use ≡ 2
unfolding try_acquire new_limiter paused new_gate set_create_reserve last_slot_kept take_slot
    kind_sem
all_deletes_test = refl

not_paused : paused (constant 30) 7 (new_gate (constant 30)) ≡ false
unfolding paused new_gate
not_paused = refl

no_creates : two_deletes.creates_in_use ≡ 0
unfolding try_acquire new_limiter paused new_gate
no_creates = refl

create_has_slot_example :
    (try_acquire counting 7 (new_gate (constant 30)) op_create two_deletes).1 ≡ true
create_has_slot_example =
    create_has_slot counting counting-IsSemaphore (constant 30) 2 2 2 7 (new_gate (constant 30))
      two_deletes_run (omega arith) (omega arith) not_paused no_creates
