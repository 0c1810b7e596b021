-- ===== src/Reconciler/Finish.antt =====
-- reconciler.go: how the goroutines of creates, deletes and cleanups end, and `retryDelay`; and
-- what `createInstance` of vcd.go records of a create that fails.
use fleeting_plugin_vcd.Base.{
  ℕ, zero, suc, ◌+◌, ◌-◌, ◌*◌, leb, if◌then◌else◌, String, Bool, true, false, Option, none, some,
  List, [], ◌∷◌, str_eq, lookup, put, del,
}
use fleeting_plugin_vcd.Backoff.{Backoff}
use fleeting_plugin_vcd.Breaker.{record_create_failure, record_create_success}
use fleeting_plugin_vcd.Instance.{pending_create, running, pending_delete, deleted, Instance}
use fleeting_plugin_vcd.Limiter.{op_create, op_delete, release}
use fleeting_plugin_vcd.Reconciler.{Reconciler, Operation, creates, deletes, cleans, operation_eq}
use fleeting_plugin_vcd.Reconciler.Poll.{Read, found, gone, failed}
use fleeting_plugin_vcd.Semaphore.{Semaphore}
use fleeting_plugin_vcd.Store.Ops.{minute, update_instance}
use fleeting_plugin_vcd.Throttle.{succeeded}

abbrev pub safe_call_max_elapsed_time : ℕ
safe_call_max_elapsed_time = 5 * minute

-- `retryDelay`: the backoff is drawn from once, and once more for each retry before this one.
module _ (rb : Backoff) where
  unfoldable pub draw : ℕ → rb.State → ℕ
  draw zero s = (rb.next_back_off s).0
  draw (suc n) s = draw n (rb.next_back_off s).1

  unfoldable pub retry_delay : ℕ → ℕ
  unfolding draw
  retry_delay retry_count = draw (retry_count - 1) rb.start

  -- Back to the queue of creates, or of deletes, after a failure.
  unfoldable pub retry_create : ℕ → String → Instance → Instance
  retry_create now error i = record i {
    phase = pending_create;
    create_started_at = none;
    retry_count = i.retry_count + 1;
    last_error = error;
    next_retry_after = some (now + retry_delay (i.retry_count + 1));
  }

  unfoldable pub retry_delete : ℕ → String → Instance → Instance
  retry_delete now error i = record i {
    phase = pending_delete;
    delete_started_at = none;
    retry_count = i.retry_count + 1;
    last_error = error;
    next_retry_after = some (now + retry_delay (i.retry_count + 1));
  }

-- `createResult`
pub record CreateResult : Type 0 where
  pub vapp_href : String
  pub vapp_name : String
  pub vm_name : String
  pub ip_address : String
  pub os_type : String

-- How `createInstance` ends: a failure has its error, and the name of the vApp if one was chosen.
pub data CreateOutcome : Type 0 where
  created : CreateResult → CreateOutcome
  create_failed : String → Option String → CreateOutcome

unfoldable pub record_created : ℕ → CreateResult → Instance → Instance
record_created now c i = record i {
  phase = running;
  create_completed_at = some now;
  id = c.vapp_href;
  name = c.vapp_name;
  vm_name = c.vm_name;
  ip_address = c.ip_address;
  os_type = c.os_type;
  last_error = "";
  next_retry_after = none;
}

unfoldable pub record_deleted : ℕ → Instance → Instance
record_deleted now i = record i {
  phase = deleted;
  delete_completed_at = some now;
  last_error = "";
  next_retry_after = none;
}

-- `sync.Map.Delete` on a set of names.
unfoldable pub without : String → List String → List String
without k [] = []
without k (x ∷ xs) = let rest = without k xs in if str_eq x k then rest else x ∷ rest

-- A goroutine leaves.
unfoldable pub remove_operation : Operation → List Operation → List Operation
remove_operation op [] = []
remove_operation op (x ∷ xs) =
    let rest = remove_operation op xs in if operation_eq x op then xs else x ∷ rest

-- `sync.Map.LoadOrStore`
unfoldable pub load_or_store : String → ℕ → List (String × ℕ) → List (String × ℕ)
load_or_store k v m = elim (lookup k m) [ some _ ↦ m | none ↦ put k v m ]

module _ (m : Semaphore) (tb cb rb : Backoff) where
  -- The deferred function of `createInstance`: ownership passes to the failed-create cleanup.
  unfoldable pub abandon : Option String → ℕ → Reconciler m tb cb → Reconciler m tb cb
  abandon none now r = r
  abandon (some name) now r = record r {
    failed_create_cleanups = load_or_store name now r.failed_create_cleanups;
    inflight_creates = without name r.inflight_creates;
  }

  -- `doCreate` from the return of `createInstance` on, but for the slot.
  unfoldable pub do_create : String → ℕ → CreateOutcome → Reconciler m tb cb → Reconciler m tb cb
  unfolding abandon
  do_create intent_id now (create_failed error name) r =
      let s = abandon name now r in
      record s {
        breaker = record_create_failure cb now s.breaker;
        store = update_instance intent_id (retry_create rb now error) now s.store;
      }
  do_create intent_id now (created c) r = record r {
    breaker = record_create_success cb r.breaker;
    throttle = succeeded tb r.throttle;
    store = update_instance intent_id (record_created now c) now r.store;
    inflight_creates = without c.vapp_name r.inflight_creates;
  }

  -- The goroutine of a create ends and gives its slot back.
  unfoldable pub end_create : String → ℕ → CreateOutcome → Reconciler m tb cb → Reconciler m tb cb
  unfolding do_create remove_operation
  end_create intent_id now outcome r =
      let s = do_create intent_id now outcome r in
      record s {
        limiter = release m op_create s.limiter;
        running = remove_operation (creates intent_id) s.running;
      }

  -- `doDelete` from the return of `deleteInstance` on, but for the slot; `none` is no error.
  unfoldable pub do_delete : String → ℕ → Option String → Reconciler m tb cb → Reconciler m tb cb
  do_delete intent_id now (some error) r = record r {
    store = update_instance intent_id (retry_delete rb now error) now r.store;
  }
  do_delete intent_id now none r = record r {
    throttle = succeeded tb r.throttle;
    store = update_instance intent_id (record_deleted now) now r.store;
  }

  unfoldable pub end_delete :
      String → String → ℕ → Option String → Reconciler m tb cb → Reconciler m tb cb
  unfolding do_delete remove_operation
  end_delete intent_id href now result r =
      let s = do_delete intent_id now result r in
      record s {
        limiter = release m op_delete s.limiter;
        running = remove_operation (deletes intent_id href) s.running;
      }

  -- Whether a failed-create cleanup is over: the vApp is deleted, or is not there and has had the
  -- time to become visible.
  unfoldable pub cleanup_done : ℕ → ℕ → Read (Unit {0}) → Bool
  cleanup_done requested_at now (found _) = true
  cleanup_done requested_at now gone = leb (requested_at + safe_call_max_elapsed_time) now
  cleanup_done requested_at now failed = false

  abbrev pub is_found {ℓ} : {A : Type ℓ} → Read A → Bool
  is_found (found _) = true
  is_found _ = false

  -- The goroutine of a cleanup ends: `found` is a deletion that went through.
  unfoldable pub end_cleanup :
      String → ℕ → ℕ → Read (Unit {0}) → Reconciler m tb cb → Reconciler m tb cb
  unfolding cleanup_done remove_operation
  end_cleanup name requested_at now result r = record r {
    throttle = if is_found result then succeeded tb r.throttle else r.throttle;
    failed_create_cleanups =
        if cleanup_done requested_at now result
        then del name r.failed_create_cleanups
        else r.failed_create_cleanups;
    background_deletes = without name r.background_deletes;
    limiter = release m op_delete r.limiter;
    running = remove_operation (cleans name requested_at) r.running;
  }
