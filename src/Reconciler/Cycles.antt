-- ===== src/Reconciler/Cycles.antt =====
-- reconciler.go, `reconcileOnce` and `run`, with `publishStatus` of status.go: the cycles of the loop
-- among all that can happen.
use fleeting_plugin_vcd.Base.{
  ℕ, ◌+◌, ◌%◌, ◌==◌, ◌≤◌, ◌≡◌, ◌⊎◌, Bool, true, false, Option, List, [], ◌∷◌, arith,
}
use fleeting_plugin_vcd.Backoff.{Backoff}
use fleeting_plugin_vcd.Reconciler.{Settings, Reconciler}
use fleeting_plugin_vcd.Reconciler.Cycle.{
  Answers, gc_check_every_n, publish_status, reconcile_once, run,
}
use fleeting_plugin_vcd.Reconciler.Poll.{PollError}
use fleeting_plugin_vcd.Reconciler.Slots.Reach.{Reachable-IsAccounted, operations_bounded}
use fleeting_plugin_vcd.Reconciler.Steps.{
  running_creates, running_deletes, Steps, Reachable, next, polls, holds, starts_creates,
  starts_deletes, starts_cleanups, collects, prunes,
}
use fleeting_plugin_vcd.Semaphore.{Semaphore, IsSemaphore}

module _ (m : Semaphore) (tb cb rb : Backoff) where
  reconcile_once-Steps :
      (a : Answers) (do_gc : Bool) (now : ℕ) {r s : Reconciler m tb cb}
      → Steps m tb cb rb r s
      → Steps m tb cb rb r (reconcile_once m tb cb a do_gc now s).0
  unfolding reconcile_once
  reconcile_once-Steps a true now steps =
      next
        (next
          (next
            (next (next (next (next steps (polls a now)) (holds now)) (starts_creates now))
              (starts_deletes now))
            (starts_cleanups now))
          (collects now))
        (prunes now)
  reconcile_once-Steps a false now steps =
      next
        (next
          (next (next (next (next steps (polls a now)) (holds now)) (starts_creates now))
            (starts_deletes now))
          (starts_cleanups now))
        (prunes now)

  pub run-Steps :
      (gc_counter : ℕ) (cycles : List (Answers × ℕ)) {r s : Reconciler m tb cb}
      → Steps m tb cb rb r s
      → Steps m tb cb rb r (run m tb cb gc_counter cycles s)
  unfolding run
  run-Steps gc_counter [] steps = steps
  run-Steps gc_counter ((a, now) ∷ cycles) steps =
      run-Steps (gc_counter + 1) cycles
        (reconcile_once-Steps a (gc_counter % gc_check_every_n == 0) now steps)

  -- What a status that is published in such a state says.
  publish_status-fits :
      (laws : IsSemaphore m) (c : Settings) (start : ℕ) (now : ℕ) (err : Option PollError)
      (s : Reconciler m tb cb)
      → Reachable m tb cb rb c start s
      → let st = publish_status m tb cb now err s in
        (st.creates_in_flight ≡ running_creates s.running)
        × (st.deletes_in_flight ≡ running_deletes s.running)
        × (st.creates_in_flight + st.deletes_in_flight ≤ st.ops_limit)
        × ((st.startup_hold ≡ false) ⊎ (st.creates_in_flight ≡ 0))
  unfolding publish_status
  publish_status-fits laws c start now err s reach =
      let v = Reachable-IsAccounted m laws tb cb rb c start reach in
      let (total, _, _, _) = operations_bounded m laws tb cb rb c start reach in
      (
        v.creates_counted,
        v.deletes_counted,
        ground (arith, v.creates_counted, v.deletes_counted, total, v.bounded.size_fixed),
        ground (arith, v.held, v.creates_counted),
      )

  -- After any cycles of the loop from a reachable state, one more cycle leaves a reachable state, and
  -- the status that it publishes counts exactly the creates that run and the deletes and
  -- cleanups that run, together at most the limit that it names; while it says that the startup
  -- hold is on, no create runs.
  pub reconcile_once-status :
      (laws : IsSemaphore m) (c : Settings) (start : ℕ) (r : Reconciler m tb cb) (gc_counter : ℕ)
      (cycles : List (Answers × ℕ)) (a : Answers) (do_gc : Bool) (now : ℕ)
      → Reachable m tb cb rb c start r
      → let (s, st) = reconcile_once m tb cb a do_gc now (run m tb cb gc_counter cycles r) in
        Reachable m tb cb rb c start s
        × (st.creates_in_flight ≡ running_creates s.running)
        × (st.deletes_in_flight ≡ running_deletes s.running)
        × (st.creates_in_flight + st.deletes_in_flight ≤ st.ops_limit)
        × ((st.startup_hold ≡ false) ⊎ (st.creates_in_flight ≡ 0))
  unfolding reconcile_once
  reconcile_once-status laws c start r gc_counter cycles a do_gc now reach =
      let after = reconcile_once-Steps a do_gc now (run-Steps gc_counter cycles reach) in
      let (in_creates, in_deletes, within, held) = publish_status-fits laws c start now _ _ after in
      (after, in_creates, in_deletes, within, held)
