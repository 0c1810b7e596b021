-- ===== src/Reconciler/Slots/Reach.antt =====
-- reconciler.go: how many operations run at once, and when creates run at all, in every state that
-- the program can reach.
use fleeting_plugin_vcd.Base.{
  ℕ, ◌+◌, ◌≤◌, ◌<◌, ◌≡◌, refl, ◌⊎◌, inl, inr, String, Bool, true, Option, none, some, List, arith,
  Bool-cases,
}
use fleeting_plugin_vcd.Backoff.{Backoff}
use fleeting_plugin_vcd.Breaker.{is_active}
use fleeting_plugin_vcd.Limiter.{op_create, op_delete, new_limiter, release}
use fleeting_plugin_vcd.Limiter.Bounds.{release-IsBounded}
use fleeting_plugin_vcd.Limiter.Slots.{new_limiter-IsBounded}
use fleeting_plugin_vcd.Reconciler.{
  Settings, Reconciler, new_reconciler, Operation, creates, deletes, cleans,
}
use fleeting_plugin_vcd.Reconciler.Cycle.{
  poll, hold_after_poll, gc_check, prune_store, increase, decrease,
}
use fleeting_plugin_vcd.Reconciler.Dispatch.Started.{
  dispatch_holding, dispatch_active, dispatch_open,
}
use fleeting_plugin_vcd.Reconciler.Dispatch.{
  dispatch_creates, dispatch_deletes, dispatch_create_cleanups,
}
use fleeting_plugin_vcd.Reconciler.Finish.{
  CreateOutcome, created, create_failed, do_create, end_create, do_delete, end_delete, end_cleanup,
  remove_operation,
}
use fleeting_plugin_vcd.Reconciler.Hold.{update_startup_hold}
use fleeting_plugin_vcd.Reconciler.Slots.{
  IsAccounted, removed_create, removed_delete, removed_cleanup, unseen, create_each-Inv,
  delete_each-Inv, clean_each-Inv,
}
use fleeting_plugin_vcd.Reconciler.Steps.{
  is_running, running_creates, running_deletes, Step, Steps, Reachable, polls, holds,
  starts_creates, starts_deletes, starts_cleanups, collects, prunes, names_vapp, is_throttled,
  ends_create, ends_delete, ends_cleanup, increases, decreases, here, next,
}
use fleeting_plugin_vcd.Semaphore.{Semaphore, IsSemaphore}
use fleeting_plugin_vcd.Store.{new_store}
use fleeting_plugin_vcd.Store.Query.{get_pending_creates, get_pending_deletes}

module _ (m : Semaphore) (laws : IsSemaphore m) (tb cb rb : Backoff) (total c d : ℕ) where
  abbrev Inv : Reconciler m tb cb → Type 0
  Inv = IsAccounted m laws tb cb total c d

  dispatch_creates-Inv :
      (now : ℕ) (r : Reconciler m tb cb) → Inv r → Inv (dispatch_creates m tb cb now r)
  dispatch_creates-Inv now r v = elim (Bool-cases r.startup_hold) [
    | inl holding ↦ rw (dispatch_holding m tb cb now r holding) v
    | inr released ↦ elim (Bool-cases (is_active cb now r.breaker)) [
      | inl active ↦
          rw (dispatch_active m tb cb now r released active)
            (unseen m laws tb cb rb total c d r _ refl refl refl refl v)
      | inr closed ↦ rw (dispatch_open m tb cb now r released closed) (
          create_each-Inv m laws tb cb rb total c d now (get_pending_creates now r.store) r released
            v)
    ]
  ]

  -- The hold touches no operation, and ends only after a complete poll.
  hold_facts :
      (now : ℕ) (ok : Bool) (r : Reconciler m tb cb)
      → let s = update_startup_hold m tb cb now ok r in
        (s.limiter ≡ r.limiter)
        × (s.running ≡ r.running)
        × ((s.startup_hold ≡ true) ⊎ (s.startup_polled ≡ true) ⊎ (s ≡ r))
        × ((r.startup_hold ≡ true) ⊎ (s ≡ r))
  unfolding update_startup_hold
  hold_facts now ok r = ground arith

  hold-Inv :
      (now : ℕ) (ok : Bool) (r : Reconciler m tb cb)
      → Inv r
      → Inv (update_startup_hold m tb cb now ok r)
  hold-Inv now ok r v =
      let (same_limiter, same_running, either, kept) = hold_facts now ok r in
      record {
        bounded = rw same_limiter v.bounded;
        creates_counted = rw (same_limiter, same_running) v.creates_counted;
        deletes_counted = rw (same_limiter, same_running) v.deletes_counted;
        held = ground (arith, v.held);
        polled = ground (arith, v.polled);
      }

  do_create-Inv :
      (id : String) (now : ℕ) (outcome : CreateOutcome) (r : Reconciler m tb cb)
      → Inv r
      → Inv (do_create m tb cb rb id now outcome r)
  unfolding do_create
  do_create-Inv id now (created x) r v = unseen m laws tb cb rb total c d r _ refl refl refl refl v
  do_create-Inv id now (create_failed error none) r v =
      unseen m laws tb cb rb total c d r _ refl refl refl refl v
  do_create-Inv id now (create_failed error (some name)) r v =
      unseen m laws tb cb rb total c d r _ refl refl refl refl v

  create_keeps_running :
      (id : String) (now : ℕ) (outcome : CreateOutcome) (r : Reconciler m tb cb)
      → (do_create m tb cb rb id now outcome r).running ≡ r.running
  unfolding do_create
  create_keeps_running id now outcome r = ground arith

  delete_keeps_running :
      (id : String) (now : ℕ) (result : Option String) (r : Reconciler m tb cb)
      → (do_delete m tb cb rb id now result r).running ≡ r.running
  unfolding do_delete
  delete_keeps_running id now result r = ground arith

  do_delete-Inv :
      (id : String) (now : ℕ) (result : Option String) (r : Reconciler m tb cb)
      → Inv r
      → Inv (do_delete m tb cb rb id now result r)
  unfolding do_delete
  do_delete-Inv id now none r v = unseen m laws tb cb rb total c d r _ refl refl refl refl v
  do_delete-Inv id now (some error) r v = unseen m laws tb cb rb total c d r _ refl refl refl refl v

  -- A create leaves and gives its slot back; and so a delete.
  left_create :
      (id : String) (r : Reconciler m tb cb)
      → is_running (creates id) r.running ≡ true
      → Inv r
      → Inv (record r {
        limiter = release m op_create r.limiter;
        running = remove_operation (creates id) r.running;
      })
  unfolding release
  left_create id r h v =
      let gone = removed_create id r.running h in
      record {
        bounded =
            release-IsBounded m laws total c d op_create r.limiter
              (omega (arith, v.creates_counted, gone)) v.bounded;
        creates_counted = ground (arith, gone, v.creates_counted);
        deletes_counted = ground (arith, gone, v.deletes_counted);
        held = ground (arith, gone, v.held);
        polled = v.polled;
      }

  left_delete :
      (r : Reconciler m tb cb) (rest : List Operation)
      → running_deletes r.running ≡ running_deletes rest + 1
      → running_creates r.running ≡ running_creates rest
      → Inv r
      → Inv (record r { limiter = release m op_delete r.limiter; running = rest })
  unfolding release
  left_delete r rest one same v = record {
    bounded =
        release-IsBounded m laws total c d op_delete r.limiter
          (omega (arith, v.deletes_counted, one)) v.bounded;
    creates_counted = ground (arith, v.creates_counted);
    deletes_counted = ground (arith, v.deletes_counted);
    held = ground (arith, v.held);
    polled = v.polled;
  }

  Step-Inv : {r s : Reconciler m tb cb} → Step m tb cb rb r s → Inv r → Inv s
  unfolding dispatch_deletes dispatch_create_cleanups end_create end_delete end_cleanup poll
      gc_check prune_store increase decrease
  Step-Inv {r} (polls a now) v = unseen m laws tb cb rb total c d r _ refl refl refl refl v
  Step-Inv {r} (holds now) v = unfold hold_after_poll in hold-Inv now r.poll_complete r v
  Step-Inv {r} (starts_creates now) v = dispatch_creates-Inv now r v
  Step-Inv {r} (starts_deletes now) v =
      delete_each-Inv m laws tb cb rb total c d now (get_pending_deletes now r.store) r v
  Step-Inv {r} (starts_cleanups now) v =
      clean_each-Inv m laws tb cb rb total c d now r.failed_create_cleanups r v
  Step-Inv {r} (collects now) v = unseen m laws tb cb rb total c d r _ refl refl refl refl v
  Step-Inv {r} (prunes now) v = unseen m laws tb cb rb total c d r _ refl refl refl refl v
  Step-Inv {r} (names_vapp name) v = unseen m laws tb cb rb total c d r _ refl refl refl refl v
  Step-Inv {r} (is_throttled now) v = unseen m laws tb cb rb total c d r _ refl refl refl refl v
  Step-Inv {r} (ends_create id now outcome h) v =
      left_create id (do_create m tb cb rb id now outcome r)
        (rw (create_keeps_running id now outcome r) h) (do_create-Inv id now outcome r v)
  Step-Inv {r} (ends_delete id href now result h) v =
      let t = do_delete m tb cb rb id now result r in
      let gone = removed_delete id href t.running (rw (delete_keeps_running id now result r) h) in
      left_delete t (remove_operation (deletes id href) t.running) gone.0 gone.1
        (do_delete-Inv id now result r v)
  Step-Inv {r} (ends_cleanup name at now result h) v =
      let gone = removed_cleanup name at r.running h in
      unseen m laws tb cb rb total c d _ _ refl refl refl refl
        (left_delete r (remove_operation (cleans name at) r.running) gone.0 gone.1 v)
  Step-Inv {r} (increases ids now) v = unseen m laws tb cb rb total c d r _ refl refl refl refl v
  Step-Inv {r} (decreases ids now) v = unseen m laws tb cb rb total c d r _ refl refl refl refl v

  Steps-Inv : {r s : Reconciler m tb cb} → Steps m tb cb rb r s → Inv r → Inv s
  Steps-Inv here v = v
  Steps-Inv (next rs st) v = Step-Inv st (Steps-Inv rs v)

module _ (m : Semaphore) (laws : IsSemaphore m) (tb cb rb : Backoff) (c : Settings) (at : ℕ) where
  abbrev pub IsAccountedFor : Reconciler m tb cb → Type 0
  IsAccountedFor =
      IsAccounted m laws tb cb c.max_concurrent_operations c.max_concurrent_creates
        c.max_concurrent_deletes

  new_reconciler-IsAccounted : IsAccountedFor (new_reconciler m tb cb c new_store at)
  unfolding new_reconciler
  new_reconciler-IsAccounted =
      let bounded =
        new_limiter-IsBounded m laws tb c.max_concurrent_operations c.max_concurrent_creates
          c.max_concurrent_deletes in
      unfold new_limiter in
      record {
        bounded = bounded;
        creates_counted = refl;
        deletes_counted = refl;
        held = inr refl;
        polled = inl refl;
      }

  pub Reachable-IsAccounted :
      {r : Reconciler m tb cb} → Reachable m tb cb rb c at r → IsAccountedFor r
  Reachable-IsAccounted rs =
      Steps-Inv m laws tb cb rb c.max_concurrent_operations c.max_concurrent_creates
        c.max_concurrent_deletes rs new_reconciler-IsAccounted

  -- In every reachable state, whatever the interleaving: the goroutines that run creates, deletes
  -- and failed-create cleanups are together at most `MaxConcurrentOperations`, the creates at most
  -- `MaxConcurrentCreates`, the others at most `MaxConcurrentDeletes`, and the others leave one
  -- slot to creates unless there is only one slot.
  pub operations_bounded :
      {r : Reconciler m tb cb}
      → Reachable m tb cb rb c at r
      → (running_creates r.running + running_deletes r.running ≤ c.max_concurrent_operations)
        × (running_creates r.running ≤ c.max_concurrent_creates)
        × (running_deletes r.running ≤ c.max_concurrent_deletes)
        × ((c.max_concurrent_operations ≤ 1)
            ⊎ (running_deletes r.running < c.max_concurrent_operations))
  operations_bounded rs = ground (arith, Reachable-IsAccounted rs)
