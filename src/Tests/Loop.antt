-- ===== src/Tests/Loop.antt =====
-- reconciler.go: cycles of the loop while a create runs.
use fleeting_plugin_vcd.Base.{ℕ, ◌+◌, ◌≤◌, ◌≡◌, ◌⊎◌, true, false, List, [], ◌∷◌, some}
use fleeting_plugin_vcd.Reconciler.Cycle.{Answers, reconcile_once, run, DebugStatus, increase}
use fleeting_plugin_vcd.Reconciler.Cycles.{reconcile_once-status}
use fleeting_plugin_vcd.Reconciler.Steps.{running_creates, running_deletes, Reachable}
use fleeting_plugin_vcd.Semaphore.{counting, counting-IsSemaphore}
use fleeting_plugin_vcd.Tests.Runs.{
  State, pace, answers, settings, begun, creating, creating-Reachable,
}

abbrev cycles : List (Answers × ℕ)
cycles = (answers, 4) ∷ (answers, 5) ∷ []

abbrev later : State × DebugStatus
later = reconcile_once counting pace pace answers true 6 (run counting pace pace 0 cycles creating)

reconcile_once-status_example :
    Reachable counting pace pace pace settings 0 later.0
    × (later.1.creates_in_flight ≡ running_creates later.0.running)
    × (later.1.deletes_in_flight ≡ running_deletes later.0.running)
    × (later.1.creates_in_flight + later.1.deletes_in_flight ≤ later.1.ops_limit)
    × ((later.1.startup_hold ≡ false) ⊎ (later.1.creates_in_flight ≡ 0))
reconcile_once-status_example =
    reconcile_once-status counting pace pace pace counting-IsSemaphore settings 0 creating 0 cycles
      answers true 6 creating-Reachable

-- A request before the first cycle, which polls and starts the create.
abbrev early : State
early = (increase counting pace pace (some "intent-1" ∷ []) 1 begun).0

abbrev first : State
first = run counting pace pace 1 ((answers, 2) ∷ []) early
