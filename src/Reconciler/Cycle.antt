-- ===== src/Reconciler/Cycle.antt =====
-- reconciler.go: one cycle of the loop, garbage collection, and the calls of the plugin's API;
-- status.go: the snapshot that a cycle publishes.
pub mod Requests
use fleeting_plugin_vcd.Base.{
  ℕ, ◌+◌, ◌%◌, ltb, ◌==◌, if◌then◌else◌, String, Bool, true, false, ◌&&◌, Option, none, some, List,
  [], ◌∷◌,
}
use fleeting_plugin_vcd.Backoff.{Backoff}
use fleeting_plugin_vcd.Instance.{Instance}
use fleeting_plugin_vcd.Reconciler.{Reconciler}
use fleeting_plugin_vcd.Reconciler.Poll.{VApp, VmPollResult, Read, PollError, owns_vapp, poll_vcd}
use fleeting_plugin_vcd.Reconciler.Hold.{leftover_progress, update_startup_hold}
use fleeting_plugin_vcd.Reconciler.Dispatch.{
  dispatch_creates, dispatch_deletes, dispatch_create_cleanups,
}
use fleeting_plugin_vcd.Semaphore.{Semaphore}
use fleeting_plugin_vcd.Store.{Store, get_by_vapp_href, get_by_intent_id}
use fleeting_plugin_vcd.Store.Ops.{add_create_intent, mark_for_deletion}
use fleeting_plugin_vcd.Store.Expiry.{mark_gc, prune}
use fleeting_plugin_vcd.Store.Query.{get_running_for_gc}
use fleeting_plugin_vcd.Throttle.{until}

abbrev pub gc_check_every_n : ℕ
gc_check_every_n = 360

-- The loop of `gcCheck`.
unfoldable pub gc_each : ℕ → List Instance → Store → Store
gc_each now [] s = s
gc_each now (i ∷ is) s = gc_each now is (mark_gc i.intent_id now s)

-- The store's part of `Increase`: each new intent ID, or `none` where generating it failed.
unfoldable pub add_intents : List (Option String) → ℕ → Store → Store × List String
add_intents [] now s = (s, [])
add_intents (none ∷ ids) now s = let (t, rest) = add_intents ids now s in (t, "" ∷ rest)
add_intents (some id ∷ ids) now s =
    let (t, rest) = add_intents ids now (add_create_intent id now s) in (t, id ∷ rest)

unfoldable pub mark_each_for_deletion : List String → ℕ → Store → Store
mark_each_for_deletion [] now s = s
mark_each_for_deletion (id ∷ ids) now s =
    mark_each_for_deletion ids now (mark_for_deletion id now s)

-- `Instance(id)`: by vApp HREF first, then by intent ID.
unfoldable pub instance_of : Store → String → Option Instance
instance_of s id = elim (get_by_vapp_href s id) [ some i ↦ some i | none ↦ get_by_intent_id s id ]

-- What vCD answers to one cycle.
pub record Answers : Type 0 where
  pub listing : Option (List VApp × List String)
  pub poll_vm : String → Read VmPollResult

abbrev pub is_none {ℓ} : {A : Type ℓ} → Option A → Bool
is_none none = true
is_none (some _) = false

-- `DebugStatus`; `LastReconcileDurationSeconds` and the seconds of the timeout are floats of
-- nothing else and are left out.
pub record DebugStatus : Type 0 where
  pub last_reconcile_at : ℕ
  pub last_poll_error : Option PollError
  pub startup_hold : Bool
  pub startup_polled : Bool
  pub leftovers_remaining : ℕ
  pub leftovers_deleting : ℕ
  pub hold_started_at : ℕ
  pub throttle_paused_until : ℕ
  pub breaker_failures : ℕ
  pub breaker_open_until : ℕ
  pub ops_limit : ℕ
  pub creates_in_flight : ℕ
  pub deletes_in_flight : ℕ

module _ (m : Semaphore) (tb cb : Backoff) where
  -- `pollVCD` on the reconciler, and whether it was complete.
  unfoldable pub poll : Answers → ℕ → Reconciler m tb cb → Reconciler m tb cb × Option PollError
  poll a now r =
      let (store, err) =
        poll_vcd
          (record {
            owns_vapp = owns_vapp r.inflight_creates r.failed_create_cleanups;
            poll_vm = a.poll_vm;
          })
          now a.listing r.store in
      (record r { store = store; poll_complete = is_none err }, err)

  -- The call of `updateStartupHold` in `reconcileOnce`.
  unfoldable pub hold_after_poll : ℕ → Reconciler m tb cb → Reconciler m tb cb
  hold_after_poll now r = update_startup_hold m tb cb now r.poll_complete r

  -- `gcCheck`
  unfoldable pub gc_check : ℕ → Reconciler m tb cb → Reconciler m tb cb
  gc_check now r = record r {
    store = gc_each now (get_running_for_gc r.settings.max_instance_age now r.store) r.store;
  }

  unfoldable pub prune_store : ℕ → Reconciler m tb cb → Reconciler m tb cb
  prune_store now r = record r { store = prune now r.store }

  -- `publishStatus`
  unfoldable pub publish_status : ℕ → Option PollError → Reconciler m tb cb → DebugStatus
  publish_status now poll_err r =
      let (remaining, going) = leftover_progress m tb cb r in
      record {
        last_reconcile_at = now;
        last_poll_error = poll_err;
        startup_hold = r.startup_hold;
        startup_polled = r.startup_polled;
        leftovers_remaining = if r.startup_hold then remaining else 0;
        leftovers_deleting = if r.startup_hold then going else 0;
        hold_started_at = if r.startup_hold && r.startup_polled then r.started_at else 0;
        throttle_paused_until = until tb now r.throttle;
        breaker_failures = r.breaker.consecutive_create_failures;
        breaker_open_until =
            if ltb now r.breaker.circuit_breaker_until then r.breaker.circuit_breaker_until else 0;
        ops_limit = r.limiter.size;
        creates_in_flight = r.limiter.creates_in_use;
        deletes_in_flight = r.limiter.deletes_in_use;
      }

  -- `reconcileOnce`, with the status that it publishes. Metrics are left out.
  unfoldable pub reconcile_once :
      Answers → Bool → ℕ → Reconciler m tb cb → Reconciler m tb cb × DebugStatus
  unfolding prune_store
  reconcile_once a do_gc now r =
      let (polled, err) = poll a now r in
      let held = hold_after_poll now polled in
      let creating = dispatch_creates m tb cb now held in
      let deleting = dispatch_deletes m tb cb now creating in
      let cleaning = dispatch_create_cleanups m tb cb now deleting in
      let collected = if do_gc then gc_check now cleaning else cleaning in
      let pruned = prune_store now collected in (pruned, publish_status now err pruned)

  -- The loop of `run`, given the answers to each of its cycles and their times: garbage is
  -- collected in every `gcCheckEveryN`-th cycle.
  unfoldable pub run : ℕ → List (Answers × ℕ) → Reconciler m tb cb → Reconciler m tb cb
  unfolding reconcile_once
  run gc_counter [] r = r
  run gc_counter ((a, now) ∷ cycles) r =
      run (gc_counter + 1) cycles (reconcile_once a (gc_counter % gc_check_every_n == 0) now r).0

  -- `Increase` and `Decrease`
  unfoldable pub increase :
      List (Option String) → ℕ → Reconciler m tb cb → Reconciler m tb cb × List String
  unfolding add_intents
  increase ids now r =
      let (store, names) = add_intents ids now r.store in (record r { store = store }, names)

  unfoldable pub decrease : List String → ℕ → Reconciler m tb cb → Reconciler m tb cb
  unfolding mark_each_for_deletion
  decrease ids now r = record r { store = mark_each_for_deletion ids now r.store }
