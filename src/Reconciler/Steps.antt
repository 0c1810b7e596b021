-- ===== src/Reconciler/Steps.antt =====
-- reconciler.go: the interleavings of the reconcile goroutine, the goroutines that it starts and
-- the calls of the API, as a step relation on the shared state.
use fleeting_plugin_vcd.Base.{ℕ, suc, ◌≡◌, String, Bool, true, false, ◌||◌, Option, List, [], ◌∷◌}
use fleeting_plugin_vcd.Backoff.{Backoff}
use fleeting_plugin_vcd.Reconciler.{
  Settings, Reconciler, new_reconciler, Operation, creates, deletes, cleans, operation_eq,
}
use fleeting_plugin_vcd.Reconciler.Cycle.{
  Answers, poll, hold_after_poll, gc_check, prune_store, increase, decrease,
}
use fleeting_plugin_vcd.Reconciler.Dispatch.{
  dispatch_creates, dispatch_deletes, dispatch_create_cleanups,
}
use fleeting_plugin_vcd.Reconciler.Finish.{CreateOutcome, end_create, end_delete, end_cleanup}
use fleeting_plugin_vcd.Reconciler.Poll.{Read}
use fleeting_plugin_vcd.Semaphore.{Semaphore}
use fleeting_plugin_vcd.Store.{new_store}
use fleeting_plugin_vcd.Throttle.{throttled}

unfoldable pub is_running : Operation → List Operation → Bool
is_running op [] = false
is_running op (x ∷ xs) = operation_eq x op || is_running op xs

-- How many goroutines run creates, and how many hold a slot for deletes.
abbrev pub running_creates : List Operation → ℕ
running_creates [] = 0
running_creates (creates _ ∷ ops) = suc (running_creates ops)
running_creates (deletes _ _ ∷ ops) = running_creates ops
running_creates (cleans _ _ ∷ ops) = running_creates ops

abbrev pub running_deletes : List Operation → ℕ
running_deletes [] = 0
running_deletes (creates _ ∷ ops) = running_deletes ops
running_deletes (deletes _ _ ∷ ops) = suc (running_deletes ops)
running_deletes (cleans _ _ ∷ ops) = suc (running_deletes ops)

module _ (m : Semaphore) (tb cb rb : Backoff) where
  pub data Step (r : Reconciler m tb cb) : Reconciler m tb cb → Type 0 where
    -- The reconcile goroutine.
    polls : (a : Answers) (now : ℕ) → Step r (poll m tb cb a now r).0
    holds : (now : ℕ) → Step r (hold_after_poll m tb cb now r)
    starts_creates : (now : ℕ) → Step r (dispatch_creates m tb cb now r)
    starts_deletes : (now : ℕ) → Step r (dispatch_deletes m tb cb now r)
    starts_cleanups : (now : ℕ) → Step r (dispatch_create_cleanups m tb cb now r)
    collects : (now : ℕ) → Step r (gc_check m tb cb now r)
    prunes : (now : ℕ) → Step r (prune_store m tb cb now r)
    -- A goroutine: `createInstance` chooses a name, a vCD call is rejected, the work ends.
    names_vapp :
        (name : String) → Step r (record r { inflight_creates = name ∷ r.inflight_creates })
    is_throttled : (now : ℕ) → Step r (record r { throttle = throttled tb now r.throttle })
    ends_create :
        (id : String) (now : ℕ) (outcome : CreateOutcome)
        → is_running (creates id) r.running ≡ true
        → Step r (end_create m tb cb rb id now outcome r)
    ends_delete :
        (id href : String) (now : ℕ) (result : Option String)
        → is_running (deletes id href) r.running ≡ true
        → Step r (end_delete m tb cb rb id href now result r)
    ends_cleanup :
        (name : String) (requested_at now : ℕ) (result : Read (Unit {0}))
        → is_running (cleans name requested_at) r.running ≡ true
        → Step r (end_cleanup m tb cb rb name requested_at now result r)
    -- The API.
    increases : (ids : List (Option String)) (now : ℕ) → Step r (increase m tb cb ids now r).0
    decreases : (ids : List String) (now : ℕ) → Step r (decrease m tb cb ids now r)

  pub data Steps (r : Reconciler m tb cb) : Reconciler m tb cb → Type 0 where
    here : Steps r r
    next : {s t : Reconciler m tb cb} → Steps r s → Step s t → Steps r t

  -- The states that the program can reach.
  abbrev pub Reachable : Settings → ℕ → Reconciler m tb cb → Type 0
  Reachable c now r = Steps (new_reconciler m tb cb c new_store now) r
