-- ===== src/Reconciler/Dispatch/Started.antt =====
-- reconciler.go, `dispatchCreates` and `dispatchDeletes`: which goroutines they start.
use fleeting_plugin_vcd.Base.{
  ℕ, ◌≡◌, sym, refl, ◌≢◌, ◌⊎◌, inl, inr, Bool, true, false, Option, List, [], ◌∷◌, str_eq, eq_iff,
  arith, Among, Bool-cases,
}
use fleeting_plugin_vcd.Backoff.{Backoff}
use fleeting_plugin_vcd.Breaker.{is_active}
use fleeting_plugin_vcd.Instance.{pending_create, pending_delete, Instance}
use fleeting_plugin_vcd.Limiter.{OpKind, op_create, op_delete, Limiter, try_acquire}
use fleeting_plugin_vcd.Reconciler.{Reconciler, Operation, creates, deletes}
use fleeting_plugin_vcd.Reconciler.Dispatch.{
  mark_creating, mark_deleting, mark_deleted, launch, create_each, dispatch_creates, delete_each,
  dispatch_deletes,
}
use fleeting_plugin_vcd.Semaphore.{Semaphore}
use fleeting_plugin_vcd.Store.{get_all}
use fleeting_plugin_vcd.Store.Ops.{update_instance}
use fleeting_plugin_vcd.Store.Query.{
  select, backoff_elapsed, is_pending, get_pending_creates, get_pending_deletes,
}
use fleeting_plugin_vcd.Throttle.{Gate, paused}

Among-select :
    (test : Instance → Bool) (i : Instance) (is : List Instance)
    → Among i (select test is)
    → Among i is × (test i ≡ true)
unfolding select
Among-select test i [] a = absurd a
Among-select test i (x ∷ is) a = ground (arith, Among-select test i is)

granted-paused :
    (m : Semaphore) {b : Backoff} (now : ℕ) (gate : Option (Gate b)) (kind : OpKind) (l : Limiter m)
    → (try_acquire m now gate kind l).1 ≡ true
    → paused b now gate ≡ false
unfolding try_acquire
granted-paused m now gate kind l e = ground arith

module _ (m : Semaphore) (tb cb : Backoff) where
  -- The three ways of `dispatchCreates`.
  pub dispatch_holding :
      (now : ℕ) (r : Reconciler m tb cb)
      → r.startup_hold ≡ true
      → dispatch_creates m tb cb now r ≡ r
  unfolding dispatch_creates
  dispatch_holding now r h = ground arith

  pub dispatch_active :
      (now : ℕ) (r : Reconciler m tb cb)
      → r.startup_hold ≡ false
      → is_active cb now r.breaker ≡ true
      → dispatch_creates m tb cb now r
        ≡ record r { breaker = record (r.breaker) { cb_logged_active = true } }
  unfolding dispatch_creates
  dispatch_active now r h a = ground arith

  pub dispatch_open :
      (now : ℕ) (r : Reconciler m tb cb)
      → r.startup_hold ≡ false
      → is_active cb now r.breaker ≡ false
      → dispatch_creates m tb cb now r ≡ create_each m tb cb now (get_pending_creates now r.store) r
  unfolding dispatch_creates
  dispatch_open now r h a = ground arith

  -- A create that one of the instances explains.
  abbrev StartsCreate : ℕ → List Instance → Reconciler m tb cb → Operation → Type 0
  StartsCreate now is r op =
      (i : Instance) × Among i is × (op ≡ creates i.intent_id) × (paused tb now r.throttle ≡ false)

  create_each-started :
      (now : ℕ) (is : List Instance) (r : Reconciler m tb cb) (op : Operation)
      → Among op (create_each m tb cb now is r).running
      → Among op r.running ⊎ StartsCreate now is r op
  unfolding create_each launch
  create_each-started now [] r op = λ a. inl a
  create_each-started now (i ∷ is) r op =
      let (limiter, slot) = try_acquire m now r.throttle op_create r.limiter in
      let launched =
        launch m tb cb (creates i.intent_id) i.intent_id (mark_creating now) now
          (record r { limiter = limiter }) in
      elim (Bool-cases slot) [
        | inl granted ↦
            rw (granted, create_each)
              (λ a. elim (create_each-started now is launched op a) [
                | inl (inl new) ↦ inr (
                  i,
                  (inl refl),
                  sym new,
                  granted-paused m now r.throttle op_create r.limiter granted,
                )
                | inl (inr old) ↦ inl old
                | inr (j, among, e, runs) ↦ inr (j, inr among, e, runs)
              ])
        | inr refused ↦ rw (refused, create_each) (λ a. inl a)
      ]

  -- `dispatchCreates` starts a goroutine only for an instance of the store that is PendingCreate and
  -- whose retry delay has passed, and only while creates are not held after a start, the circuit
  -- breaker is not active and the throttle gate is not paused.
  pub dispatch_creates-started :
      (now : ℕ) (r : Reconciler m tb cb) (op : Operation)
      → Among op (dispatch_creates m tb cb now r).running
      → Among op r.running
        ⊎ ((i : Instance) × Among i (get_all r.store)
            × (op ≡ creates i.intent_id)
            × (i.phase ≡ pending_create)
            × (backoff_elapsed now i ≡ true)
            × (r.startup_hold ≡ false)
            × (is_active cb now r.breaker ≡ false)
            × (paused tb now r.throttle ≡ false))
  unfolding get_pending_creates
  dispatch_creates-started now r op = elim (Bool-cases r.startup_hold) [
    | inl held ↦ rw (dispatch_holding now r held) (λ a. inl a)
    | inr released ↦ elim (Bool-cases (is_active cb now r.breaker)) [
      | inl active ↦ rw (dispatch_active now r released active) (λ a. inl a)
      | inr closed ↦ rw (dispatch_open now r released closed) (λ a.
          elim (create_each-started now (get_pending_creates now r.store) r op a) [
            | inl old ↦ inl old
            | inr (i, among, e, runs) ↦
                let (listed, pending) =
                  Among-select (is_pending pending_create now) i (get_all r.store) among in
                inr (i, listed, e, ground arith, ground arith, released, closed, runs)
          ])
    ]
  ]

  abbrev StartsDelete : ℕ → List Instance → Reconciler m tb cb → Operation → Type 0
  StartsDelete now is r op =
      (i : Instance) × Among i is
      × (op ≡ deletes i.intent_id i.id)
      × (i.id ≢ "")
      × (paused tb now r.throttle ≡ false)

  delete_each-started :
      (now : ℕ) (is : List Instance) (r : Reconciler m tb cb) (op : Operation)
      → Among op (delete_each m tb cb now is r).running
      → Among op r.running ⊎ StartsDelete now is r op
  unfolding delete_each launch
  delete_each-started now [] r op = λ a. inl a
  delete_each-started now (i ∷ is) r op =
      let (limiter, slot) = try_acquire m now r.throttle op_delete r.limiter in
      let launched =
        launch m tb cb (deletes i.intent_id i.id) i.intent_id (mark_deleting now) now
          (record r { limiter = limiter }) in
      let dropped : Reconciler m tb cb = record r {
        store = update_instance i.intent_id (mark_deleted now) now r.store;
      } in
      elim (Bool-cases (str_eq i.id "")) [
        | inl unmade ↦
            rw (unmade, delete_each)
              (λ a. elim (delete_each-started now is dropped op a) [
                | inl old ↦ inl old
                | inr (j, among, e, named, runs) ↦ inr (j, inr among, e, named, runs)
              ])
        | inr made ↦ elim (Bool-cases slot) [
          | inl granted ↦
              rw (made, granted, delete_each)
                (λ a. elim (delete_each-started now is launched op a) [
                  | inl (inl new) ↦ inr (
                    i,
                    inl refl,
                    sym new,
                    (λ empty. ground (arith, eq_iff i.id "")),
                    granted-paused m now r.throttle op_delete r.limiter granted,
                  )
                  | inl (inr old) ↦ inl old
                  | inr (j, among, e, named, runs) ↦ inr (j, inr among, e, named, runs)
                ])
          | inr refused ↦ rw (made, refused, delete_each) (λ a. inl a)
        ]
      ]

  -- `dispatchDeletes` starts a goroutine only for an instance of the store that is PendingDelete,
  -- whose retry delay has passed and that has a vApp, only while the throttle gate is not
  -- paused, and it deletes the vApp of that instance.
  pub dispatch_deletes-started :
      (now : ℕ) (r : Reconciler m tb cb) (op : Operation)
      → Among op (dispatch_deletes m tb cb now r).running
      → Among op r.running
        ⊎ ((i : Instance) × Among i (get_all r.store)
            × (op ≡ deletes i.intent_id i.id)
            × (i.phase ≡ pending_delete)
            × (backoff_elapsed now i ≡ true)
            × (i.id ≢ "")
            × (paused tb now r.throttle ≡ false))
  unfolding dispatch_deletes get_pending_deletes
  dispatch_deletes-started now r op a =
      elim (delete_each-started now (get_pending_deletes now r.store) r op a) [
        | inl old ↦ inl old
        | inr (i, among, e, made, runs) ↦
            let (listed, pending) =
              Among-select (is_pending pending_delete now) i (get_all r.store) among in
            inr (i, listed, e, ground arith, ground arith, made, runs)
      ]
