-- ===== src/Reconciler/Dispatch.antt =====
-- reconciler.go: the dispatch of creates, deletes and failed-create cleanups. A goroutine that is
-- started takes a slot and enters `running`; the instance changes its phase first.
pub mod Started
use fleeting_plugin_vcd.Base.{ℕ, if◌then◌else◌, String, true, some, List, [], ◌∷◌, str_eq}
use fleeting_plugin_vcd.Backoff.{Backoff}
use fleeting_plugin_vcd.Breaker.{is_active}
use fleeting_plugin_vcd.Instance.{creating, deleting, deleted, Instance}
use fleeting_plugin_vcd.Limiter.{op_create, op_delete, try_acquire}
use fleeting_plugin_vcd.Reconciler.{Reconciler, Operation, creates, deletes, cleans}
use fleeting_plugin_vcd.Semaphore.{Semaphore}
use fleeting_plugin_vcd.Store.Ops.{contains, update_instance}
use fleeting_plugin_vcd.Store.Query.{get_pending_creates, get_pending_deletes}

-- The updates that mark an instance.
unfoldable pub mark_creating : ℕ → Instance → Instance
mark_creating now i = record i { phase = creating; create_started_at = some now }

unfoldable pub mark_deleting : ℕ → Instance → Instance
mark_deleting now i = record i { phase = deleting; delete_started_at = some now }

unfoldable pub mark_deleted : ℕ → Instance → Instance
mark_deleted now i = record i { phase = deleted; delete_completed_at = some now }

module _ (m : Semaphore) (tb cb : Backoff) where
  -- One goroutine starts: its slot is taken already.
  unfoldable pub launch :
      Operation → String → (Instance → Instance) → ℕ → Reconciler m tb cb → Reconciler m tb cb
  launch op intent_id mark now r = record r {
    store = update_instance intent_id mark now r.store;
    running = op ∷ r.running;
  }

  -- The loop of `dispatchCreates`, which a refused slot ends.
  unfoldable pub create_each : ℕ → List Instance → Reconciler m tb cb → Reconciler m tb cb
  unfolding launch
  create_each now [] r = r
  create_each now (i ∷ is) r =
      let (limiter, granted) = try_acquire m now r.throttle op_create r.limiter in
      let taken = record r { limiter = limiter } in
      let rest =
        create_each now is
          (launch (creates i.intent_id) i.intent_id (mark_creating now) now taken) in
      if granted then rest else taken

  -- `dispatchCreates`
  unfoldable pub dispatch_creates : ℕ → Reconciler m tb cb → Reconciler m tb cb
  dispatch_creates now r =
      if r.startup_hold
      then r
      else if is_active cb now r.breaker
      then record r { breaker = record (r.breaker) { cb_logged_active = true } }
      else create_each now (get_pending_creates now r.store) r

  -- The loop of `dispatchDeletes`: an instance that never had a vApp is deleted at once.
  unfoldable pub delete_each : ℕ → List Instance → Reconciler m tb cb → Reconciler m tb cb
  unfolding launch
  delete_each now [] r = r
  delete_each now (i ∷ is) r =
      let (limiter, granted) = try_acquire m now r.throttle op_delete r.limiter in
      let taken = record r { limiter = limiter } in
      let unmade =
        delete_each now is
          (record r { store = update_instance i.intent_id (mark_deleted now) now r.store }) in
      let rest =
        delete_each now is
          (launch (deletes i.intent_id i.id) i.intent_id (mark_deleting now) now taken) in
      if str_eq i.id "" then unmade else if granted then rest else taken

  -- `dispatchDeletes`
  unfoldable pub dispatch_deletes : ℕ → Reconciler m tb cb → Reconciler m tb cb
  dispatch_deletes now r = delete_each now (get_pending_deletes now r.store) r

  -- The `Range` of `dispatchCreateCleanups`; a name whose cleanup runs already is passed over.
  unfoldable pub clean_each : ℕ → List (String × ℕ) → Reconciler m tb cb → Reconciler m tb cb
  clean_each now [] r = r
  clean_each now ((name, requested_at) ∷ names) r =
      let (limiter, granted) = try_acquire m now r.throttle op_delete r.limiter in
      let taken = record r { limiter = limiter } in
      let skipped = clean_each now names r in
      let rest = clean_each now names (record taken {
        background_deletes = name ∷ r.background_deletes;
        running = cleans name requested_at ∷ r.running;
      }) in
      if contains name r.background_deletes then skipped else if granted then rest else taken

  -- `dispatchCreateCleanups`; `background_deletes` leaves out the prefix "create:" of its keys.
  unfoldable pub dispatch_create_cleanups : ℕ → Reconciler m tb cb → Reconciler m tb cb
  dispatch_create_cleanups now r = clean_each now r.failed_create_cleanups r
