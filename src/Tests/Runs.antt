-- ===== src/Tests/Runs.antt =====
-- reconciler.go on a concrete run: a first poll of an empty folder, one request, one create.
use fleeting_plugin_vcd.Base.{
  length, String, none, inl, Among, ◌≢◌, ◌+◌, ◌≤◌, ◌<◌, ◌≡◌, refl, ◌⊎◌, true, false, some, [], ◌∷◌,
  arith, lookup, put,
}
use fleeting_plugin_vcd.Instance.{Phase, running, pending_create, pending_delete, Instance}
use fleeting_plugin_vcd.Reconciler.Single.{creates_of, deletes_of}
use fleeting_plugin_vcd.Reconciler.Single.Reach.{
  AreNew, ExpectedSteps, still, further, create_runs_once,
}
use fleeting_plugin_vcd.Reconciler.Dispatch.Started.{
  dispatch_creates-started, dispatch_deletes-started,
}
use fleeting_plugin_vcd.Store.Phases.{phase_of}
use fleeting_plugin_vcd.Backoff.{Backoff, constant}
use fleeting_plugin_vcd.Reconciler.Made.{created-found}
use fleeting_plugin_vcd.Store.Index.Learnt.{unless_at}
use fleeting_plugin_vcd.Tests.Store.{result, vapp_1, vapp_1_named}
use fleeting_plugin_vcd.Reconciler.Finish.{created, end_create}
use fleeting_plugin_vcd.Reconciler.Cycle.Requests.{AreUnused, increase-counts}
use fleeting_plugin_vcd.Store.Index.{IsWellFormed, new_store-IsWellFormed}
use fleeting_plugin_vcd.Semaphore.{counting}
use fleeting_plugin_vcd.Throttle.{paused, new_gate}
use fleeting_plugin_vcd.Breaker.{is_active, new_breaker}
use fleeting_plugin_vcd.Limiter.{last_slot_kept, take_slot, kind_sem, new_limiter, try_acquire}
use fleeting_plugin_vcd.Store.{get_by_intent_id, get_by_vapp_href, new_store, get_all}
use fleeting_plugin_vcd.Store.Query.{
  get_pending_deletes, size, tally, get_pending_creates, select, backoff_elapsed,
}
use fleeting_plugin_vcd.Store.Ops.{
  add_leftover, add_create_intent, update_instance, link, mark_disappeared, update_each,
}
use fleeting_plugin_vcd.Reconciler.{creates, deletes, Settings, Reconciler, new_reconciler}
use fleeting_plugin_vcd.Reconciler.Poll.{failed, poll_vcd, poll_vapps, count_missing}
use fleeting_plugin_vcd.Reconciler.Cycle.{add_intents, Answers, poll, increase}
use fleeting_plugin_vcd.Reconciler.Hold.{
  update_startup_hold, leftover_progress, progress_of, end_startup_hold, start_cleanup,
}
use fleeting_plugin_vcd.Reconciler.Dispatch.{
  delete_each, dispatch_deletes, create_each, launch, dispatch_creates,
}
use fleeting_plugin_vcd.Reconciler.Steps.{
  is_running, running_creates, Reachable, here, next, polls, holds, increases, starts_creates,
}
use fleeting_plugin_vcd.Reconciler.Cycle.{hold_after_poll}

abbrev pub settings : Settings
settings = record {
  max_concurrent_creates = 2;
  max_concurrent_deletes = 2;
  max_concurrent_operations = 3;
  max_instance_age = 1000;
  startup_cleanup_timeout = 100;
}

abbrev pub pace : Backoff
pace = constant 30

abbrev pub State : Type 0
State = Reconciler counting pace pace

abbrev pub answers : Answers
answers = record { listing = some ([], []); poll_vm = λ href. failed }

abbrev pub begun : State
begun = new_reconciler counting pace pace settings new_store 0

abbrev pub polled : State
polled = hold_after_poll counting pace pace 1 (poll counting pace pace answers 1 begun).0

abbrev pub requested : State
requested = (increase counting pace pace (some "intent-1" ∷ []) 2 polled).0

abbrev pub creating : State
creating = dispatch_creates counting pace pace 3 requested

pub creating-Reachable : Reachable counting pace pace pace settings 0 creating
creating-Reachable =
    next (next (next (next here (polls answers 1)) (holds 1)) (increases (some "intent-1" ∷ []) 2))
      (starts_creates 3)

-- The state after the first poll.
abbrev ready : State
ready = record begun {
  startup_hold = false;
  startup_polled = true;
  started_at = 1;
  last_hold_log = 1;
  poll_complete = true;
}

polled-ready : polled ≡ ready
unfolding hold_after_poll update_startup_hold poll new_reconciler new_store leftover_progress
    get_all poll_vcd size tally poll_vapps mark_disappeared update_each count_missing progress_of
    end_startup_hold start_cleanup
polled-ready = refl

one_create :
    running_creates
      (dispatch_creates counting pace pace 3
        (increase counting pace pace (some "intent-1" ∷ []) 2 ready).0).running
    ≡ 1
unfolding dispatch_creates increase add_intents new_reconciler new_store add_create_intent is_active
    new_breaker get_pending_creates get_all select backoff_elapsed create_each try_acquire paused
    new_gate new_limiter launch update_instance link lookup put
one_create = refl

some_create : 0 < running_creates creating.running
unfolding dispatch_creates increase
some_create = rw polled-ready (omega (arith, one_create))

ready_new : lookup "intent-1" ready.store.instances ≡ none
unfolding new_reconciler new_store lookup
ready_new = refl

polled-AreNew : AreNew polled.running (some "intent-1" ∷ []) 2 polled.store
unfolding new_reconciler
polled-AreNew = rw polled-ready (ready_new, refl, tt)

creating-ExpectedSteps : ExpectedSteps counting pace pace pace begun creating
unfolding new_reconciler new_store hold_after_poll update_startup_hold poll poll_vcd lookup
creating-ExpectedSteps =
    further
      (further (further (further still (polls answers 1) tt) (holds 1) tt)
        (increases (some "intent-1" ∷ []) 2) polled-AreNew)
      (starts_creates 3) tt

create_runs_once_example :
    (creates_of "intent-1" creating.running ≤ 1)
    × ((creates_of "intent-1" creating.running ≡ 0)
        ⊎ ((phase_of creating.store "intent-1" ≡ some Phase.creating)
            × (deletes_of "intent-1" creating.running ≡ 0)))
create_runs_once_example =
    create_runs_once counting pace pace pace settings 0 creating "intent-1" creating-ExpectedSteps

-- The request of the run, and the create that it starts.
abbrev asked : State
asked = (increase counting pace pace (some "intent-1" ∷ []) 2 ready).0

started-Among : Among (creates "intent-1") (dispatch_creates counting pace pace 3 asked).running
unfolding dispatch_creates increase add_intents new_reconciler new_store add_create_intent is_active
    new_breaker get_pending_creates get_all select backoff_elapsed create_each try_acquire paused
    new_gate new_limiter launch update_instance link lookup put
started-Among = inl refl

dispatch_creates-started_example :
    Among (creates "intent-1") asked.running
    ⊎ ((i : Instance) × Among i (get_all asked.store)
        × (creates "intent-1" ≡ creates i.intent_id)
        × (i.phase ≡ pending_create)
        × (backoff_elapsed 3 i ≡ true)
        × (asked.startup_hold ≡ false)
        × (is_active pace 3 asked.breaker ≡ false)
        × (paused pace 3 asked.throttle ≡ false))
dispatch_creates-started_example =
    dispatch_creates-started counting pace pace 3 asked (creates "intent-1") started-Among

-- A run that found the leftover of an earlier run.
abbrev leaving : State
leaving = record ready {
  store = (add_leftover "https://vcd/old" "old" 1 new_store).0;
  startup_hold = true;
}

deletes-Among :
    Among
      (deletes "https://vcd/old" "https://vcd/old")
      (dispatch_deletes counting pace pace 3 leaving).running
unfolding dispatch_deletes new_reconciler new_store add_leftover get_pending_deletes get_all select
    backoff_elapsed delete_each try_acquire paused new_gate new_limiter last_slot_kept take_slot
    kind_sem launch update_instance link lookup put
deletes-Among = inl refl

dispatch_deletes-started_example :
    Among (deletes "https://vcd/old" "https://vcd/old") leaving.running
    ⊎ ((i : Instance) × Among i (get_all leaving.store)
        × (deletes "https://vcd/old" "https://vcd/old" ≡ deletes i.intent_id i.id)
        × (i.phase ≡ pending_delete)
        × (backoff_elapsed 3 i ≡ true)
        × (i.id ≢ "")
        × (paused pace 3 leaving.throttle ≡ false))
dispatch_deletes-started_example =
    dispatch_deletes-started counting pace pace 3 leaving
      (deletes "https://vcd/old" "https://vcd/old") deletes-Among

ready-is_running :
    is_running
      (creates "intent-1")
      (dispatch_creates counting pace pace 3
        (increase counting pace pace (some "intent-1" ∷ []) 2 ready).0).running
    ≡ true
unfolding is_running dispatch_creates increase add_intents new_reconciler new_store
    add_create_intent is_active new_breaker get_pending_creates get_all select backoff_elapsed
    create_each try_acquire paused new_gate new_limiter launch update_instance link lookup put
ready-is_running = refl

creating-is_running : is_running (creates "intent-1") creating.running ≡ true
unfolding dispatch_creates increase
creating-is_running = rw polled-ready ready-is_running

created-found_example :
    let s = end_create counting pace pace pace "intent-1" 9 (created result) creating in
    (j : Instance) × (get_by_intent_id s.store "intent-1" ≡ some j)
    × (get_by_vapp_href s.store vapp_1 ≡ some j)
    × (j.phase ≡ running)
    × (j.ip_address ≡ "10.0.0.7")
    × ((k : String)
        → k ≢ "intent-1"
        → get_by_intent_id s.store k ≡ unless_at vapp_1 (get_by_intent_id creating.store k))
    × (creates_of "intent-1" s.running ≡ 0)
    × (s.breaker.consecutive_create_failures ≡ 0)
created-found_example =
    created-found counting pace pace pace settings 0 creating "intent-1" result 9
      creating-ExpectedSteps creating-is_running vapp_1_named

-- A request for two instances, one of which gets no ID.
begun-IsWellFormed : IsWellFormed begun.store
unfolding new_reconciler
begun-IsWellFormed = new_store-IsWellFormed

begun-AreUnused : AreUnused (none ∷ some "intent-2" ∷ []) 4 begun.store
unfolding new_reconciler new_store lookup
begun-AreUnused = (refl, tt)

increase-counts_example :
    (length (increase counting pace pace (none ∷ some "intent-2" ∷ []) 4 begun).1 ≡ 2)
    × (size (increase counting pace pace (none ∷ some "intent-2" ∷ []) 4 begun).0.store
        ≡ size begun.store + 1)
increase-counts_example =
    increase-counts counting pace pace (none ∷ some "intent-2" ∷ []) 4 begun begun-IsWellFormed
      begun-AreUnused
