-- ===== src/Reconciler/Slots.antt =====
-- reconciler.go: every goroutine holds one slot of the limiter, and no create runs while creates
-- are held.
pub mod Reach
pub mod Polled
use fleeting_plugin_vcd.Base.{
  ℕ, zero, suc, ◌+◌, ◌-◌, ◌≤◌, ◌<◌, ◌≡◌, refl, ◌⊎◌, inl, inr, String, Bool, true, false, ◌||◌, ◌&&◌,
  if◌then◌else◌, Option, List, [], ◌∷◌, str_eq, arith, Bool-cases, eq_iff,
}
use fleeting_plugin_vcd.Backoff.{Backoff}
use fleeting_plugin_vcd.Instance.{Instance}
use fleeting_plugin_vcd.Limiter.{
  Limiter, OpKind, op_create, op_delete, in_use, is_delete, try_acquire, take_slot, release,
}
use fleeting_plugin_vcd.Limiter.Bounds.{IsBounded, release-IsBounded}
use fleeting_plugin_vcd.Limiter.Slots.{try_acquire-IsBounded, new_limiter-IsBounded}
use fleeting_plugin_vcd.Reconciler.{
  Settings, Reconciler, new_reconciler, Operation, creates, deletes, cleans, operation_eq,
}
use fleeting_plugin_vcd.Reconciler.Dispatch.{
  launch, create_each, dispatch_creates, delete_each, dispatch_deletes, clean_each,
  dispatch_create_cleanups,
}
use fleeting_plugin_vcd.Reconciler.Finish.{remove_operation}
use fleeting_plugin_vcd.Reconciler.Steps.{is_running, running_creates, running_deletes}
use fleeting_plugin_vcd.Semaphore.{Semaphore, IsSemaphore}
use fleeting_plugin_vcd.Store.Ops.{contains}
use fleeting_plugin_vcd.Throttle.{Gate}

abbrev pub kind_of : Operation → OpKind
kind_of (creates _) = op_create
kind_of (deletes _ _) = op_delete
kind_of (cleans _ _) = op_delete

-- One create less is running, and as many deletes.
pub removed_create :
    (id : String) (ops : List Operation)
    → is_running (creates id) ops ≡ true
    → let rest = remove_operation (creates id) ops in
      (running_creates ops ≡ running_creates rest + 1)
      × (running_deletes ops ≡ running_deletes rest)
unfolding is_running remove_operation
removed_create id [] h = cc
removed_create id (creates j ∷ ops) h = ground (arith, removed_create id ops)
removed_create id (deletes j k ∷ ops) h = ground (arith, removed_create id ops)
removed_create id (cleans n t ∷ ops) h = ground (arith, removed_create id ops)

pub removed_delete :
    (id href : String) (ops : List Operation)
    → is_running (deletes id href) ops ≡ true
    → let rest = remove_operation (deletes id href) ops in
      (running_deletes ops ≡ running_deletes rest + 1)
      × (running_creates ops ≡ running_creates rest)
unfolding is_running remove_operation
removed_delete id href [] h = cc
removed_delete id href (creates j ∷ ops) h = ground (arith, removed_delete id href ops)
removed_delete id href (deletes j k ∷ ops) h = ground (arith, removed_delete id href ops)
removed_delete id href (cleans n t ∷ ops) h = ground (arith, removed_delete id href ops)

pub removed_cleanup :
    (name : String) (at : ℕ) (ops : List Operation)
    → is_running (cleans name at) ops ≡ true
    → let rest = remove_operation (cleans name at) ops in
      (running_deletes ops ≡ running_deletes rest + 1)
      × (running_creates ops ≡ running_creates rest)
unfolding is_running remove_operation
removed_cleanup name at [] h = cc
removed_cleanup name at (creates j ∷ ops) h = ground (arith, removed_cleanup name at ops)
removed_cleanup name at (deletes j k ∷ ops) h = ground (arith, removed_cleanup name at ops)
removed_cleanup name at (cleans n t ∷ ops) h = ground (arith, removed_cleanup name at ops)

abbrev is_create : OpKind → Bool
is_create op_create = true
is_create op_delete = false

-- What `tryAcquire` does to the counters.
module _ (m : Semaphore) where
  counted :
      {b : Backoff} (now : ℕ) (gate : Option (Gate b)) (kind : OpKind) (l : Limiter m)
      → let (l', granted) = try_acquire m now gate kind l in
        (l'.creates_in_use
          ≡ (if granted && is_create kind then l.creates_in_use + 1 else l.creates_in_use))
        × (l'.deletes_in_use
            ≡ (if granted && is_delete m kind then l.deletes_in_use + 1 else l.deletes_in_use))
  unfolding try_acquire
  counted now gate op_create l = ground arith
  counted now gate op_delete l = ground arith

-- Every goroutine holds a slot: the counters of the limiter count them, within its bounds. While
-- creates are held none runs, and they are held until a poll has gone through.
pub record IsAccounted (m : Semaphore) (laws : IsSemaphore m) (tb cb : Backoff) (total c d : ℕ)
    (r : Reconciler m tb cb) : Type 0 where
  pub bounded : IsBounded m laws total c d r.limiter
  pub creates_counted : r.limiter.creates_in_use ≡ running_creates r.running
  pub deletes_counted : r.limiter.deletes_in_use ≡ running_deletes r.running
  pub held : (r.startup_hold ≡ false) ⊎ (running_creates r.running ≡ 0)
  pub polled : (r.startup_hold ≡ true) ⊎ (r.startup_polled ≡ true)

module _ (m : Semaphore) (laws : IsSemaphore m) (tb cb rb : Backoff) (total c d : ℕ) where
  abbrev pub Inv : Reconciler m tb cb → Type 0
  Inv = IsAccounted m laws tb cb total c d

  -- A slot is asked for: refused, nothing changes; granted, the operation runs.
  refused :
      (now : ℕ) (kind : OpKind) (r : Reconciler m tb cb)
      → (try_acquire m now r.throttle kind r.limiter).1 ≡ false
      → Inv r
      → Inv (record r { limiter = (try_acquire m now r.throttle kind r.limiter).0 })
  refused now kind r no_slot v = record {
    bounded = try_acquire-IsBounded m laws tb total c d now r.throttle kind r.limiter v.bounded;
    creates_counted = ground (arith, counted m now r.throttle kind r.limiter, v.creates_counted);
    deletes_counted = ground (arith, counted m now r.throttle kind r.limiter, v.deletes_counted);
    held = v.held;
    polled = v.polled;
  }

  granted :
      (now : ℕ) (op : Operation) (r : Reconciler m tb cb)
      → (try_acquire m now r.throttle (kind_of op) r.limiter).1 ≡ true
      → (r.startup_hold ≡ false) ⊎ (kind_of op ≡ op_delete)
      → Inv r
      → Inv (record r {
        limiter = (try_acquire m now r.throttle (kind_of op) r.limiter).0;
        running = op ∷ r.running;
      })
  granted now (creates id) r slot free v = record {
    bounded =
        try_acquire-IsBounded m laws tb total c d now r.throttle op_create r.limiter v.bounded;
    creates_counted =
        ground (arith, counted m now r.throttle op_create r.limiter, v.creates_counted);
    deletes_counted =
        ground (arith, counted m now r.throttle op_create r.limiter, v.deletes_counted);
    held = ground arith;
    polled = v.polled;
  }
  granted now (deletes id href) r slot free v = record {
    bounded =
        try_acquire-IsBounded m laws tb total c d now r.throttle op_delete r.limiter v.bounded;
    creates_counted =
        ground (arith, counted m now r.throttle op_delete r.limiter, v.creates_counted);
    deletes_counted =
        ground (arith, counted m now r.throttle op_delete r.limiter, v.deletes_counted);
    held = v.held;
    polled = v.polled;
  }
  granted now (cleans name at) r slot free v = record {
    bounded =
        try_acquire-IsBounded m laws tb total c d now r.throttle op_delete r.limiter v.bounded;
    creates_counted =
        ground (arith, counted m now r.throttle op_delete r.limiter, v.creates_counted);
    deletes_counted =
        ground (arith, counted m now r.throttle op_delete r.limiter, v.deletes_counted);
    held = v.held;
    polled = v.polled;
  }

  -- What the invariant does not speak of may change.
  pub unseen :
      (r s : Reconciler m tb cb)
      → s.limiter ≡ r.limiter
      → s.running ≡ r.running
      → s.startup_hold ≡ r.startup_hold
      → s.startup_polled ≡ r.startup_polled
      → Inv r
      → Inv s
  unseen r s l o h p v = record {
    bounded = rw l v.bounded;
    creates_counted = rw (l, o) v.creates_counted;
    deletes_counted = rw (l, o) v.deletes_counted;
    held = rw (h, o) v.held;
    polled = rw (h, p) v.polled;
  }

  pub create_each-Inv :
      (now : ℕ) (is : List Instance) (r : Reconciler m tb cb)
      → r.startup_hold ≡ false
      → Inv r
      → Inv (create_each m tb cb now is r)
  unfolding create_each
  create_each-Inv now [] r released v = v
  create_each-Inv now (i ∷ is) r released v =
      elim (Bool-cases (try_acquire m now r.throttle op_create r.limiter).1) [
        | inl slot ↦
            rw (slot, create_each)
              (create_each-Inv now is _ released (
                unseen _ _ refl refl refl refl
                  (granted now (creates i.intent_id) r slot (inl released) v)))
        | inr no_slot ↦ rw (no_slot, create_each) (refused now op_create r no_slot v)
      ]

  pub delete_each-Inv :
      (now : ℕ) (is : List Instance) (r : Reconciler m tb cb)
      → Inv r
      → Inv (delete_each m tb cb now is r)
  unfolding delete_each
  delete_each-Inv now [] r v = v
  delete_each-Inv now (i ∷ is) r v = elim (Bool-cases (str_eq i.id "")) [
    | inl unmade ↦
        rw (unmade, delete_each) (delete_each-Inv now is _ (unseen r _ refl refl refl refl v))
    | inr made ↦ elim (Bool-cases (try_acquire m now r.throttle op_delete r.limiter).1) [
      | inl slot ↦
          rw (made, slot, delete_each)
            (delete_each-Inv now is _ (
              unseen _ _ refl refl refl refl
                (granted now (deletes i.intent_id i.id) r slot (inr refl) v)))
      | inr no_slot ↦ rw (made, no_slot, delete_each) (refused now op_delete r no_slot v)
    ]
  ]

  pub clean_each-Inv :
      (now : ℕ) (names : List (String × ℕ)) (r : Reconciler m tb cb)
      → Inv r
      → Inv (clean_each m tb cb now names r)
  unfolding clean_each
  clean_each-Inv now [] r v = v
  clean_each-Inv now ((name, at) ∷ names) r v =
      elim (Bool-cases (contains name r.background_deletes)) [
        | inl busy ↦ rw (busy, clean_each) (clean_each-Inv now names r v)
        | inr free ↦ elim (Bool-cases (try_acquire m now r.throttle op_delete r.limiter).1) [
          | inl slot ↦
              rw (free, slot, clean_each)
                (clean_each-Inv now names _ (
                  unseen _ _ refl refl refl refl
                    (granted now (cleans name at) r slot (inr refl) v)))
          | inr no_slot ↦ rw (free, no_slot, clean_each) (refused now op_delete r no_slot v)
        ]
      ]
