-- ===== src/Reconciler.antt =====
-- reconciler.go: the state of the reconciliation loop and what its goroutines share. A goroutine
-- that runs a create, a delete or a cleanup stands in `running` until it ends; its start and its
-- end are separate steps. The semaphores and the backoffs are parameters (Semaphore, Backoff).
-- One step sees one time: the calls of `time.Now()` in it all give its argument `now`.
pub mod Poll
pub mod Hold
pub mod Dispatch
pub mod Finish
pub mod Cycle
pub mod Steps
pub mod Slots
pub mod Single
pub mod Retry
pub mod Made
pub mod Cycles
pub mod Shutdown
use fleeting_plugin_vcd.Base.{
  ℕ, ◌+◌, String, Bool, true, false, ◌&&◌, ◌||◌, if◌then◌else◌, Option, List, [], ◌∷◌, str_eq, ◌==◌,
}
use fleeting_plugin_vcd.Backoff.{Backoff}
use fleeting_plugin_vcd.Breaker.{Breaker, new_breaker}
use fleeting_plugin_vcd.Limiter.{Limiter, new_limiter}
use fleeting_plugin_vcd.Semaphore.{Semaphore}
use fleeting_plugin_vcd.Store.{Store}
use fleeting_plugin_vcd.Throttle.{Gate, new_gate}

-- `ReconcilerConfig` once `withDefaults` has run.
pub record Settings : Type 0 where
  pub max_concurrent_creates : ℕ
  pub max_concurrent_deletes : ℕ
  pub max_concurrent_operations : ℕ
  pub max_instance_age : ℕ
  pub startup_cleanup_timeout : ℕ

-- What a goroutine that holds a slot does, and its arguments.
pub data Operation : Type 0 where
  creates : String → Operation  -- `doCreate(intentID)`
  deletes : String → String → Operation  -- `doDelete(intentID, href)`
  cleans : String → ℕ → Operation  -- the cleanup of a failed create: its name, when requested

abbrev pub operation_eq : Operation → Operation → Bool
operation_eq (creates i) (creates j) = str_eq i j
operation_eq (deletes i h) (deletes j k) = str_eq i j && str_eq h k
operation_eq (cleans n s) (cleans k t) = str_eq n k && s == t
operation_eq _ _ = false

module _ (m : Semaphore) (tb cb : Backoff) where
  pub record Reconciler : Type 0 where
    pub store : Store
    pub settings : Settings
    pub limiter : Limiter m
    pub throttle : Option (Gate tb)
    pub breaker : Breaker cb
    pub startup_hold : Bool
    pub startup_polled : Bool
    pub last_hold_log : ℕ
    pub started_at : ℕ
    pub background_deletes : List String
    -- Of the `InstanceGroup`: names of failed creates with the time their cleanup was requested,
    -- and names of creates whose HREF is not stored yet.
    pub failed_create_cleanups : List (String × ℕ)
    pub inflight_creates : List String
    pub running : List Operation
    -- `pollErr == nil` in `reconcileOnce`: whether the last poll was complete.
    pub poll_complete : Bool

  -- `newVCDInstanceGroup`
  unfoldable pub new_reconciler : Settings → Store → ℕ → Reconciler
  new_reconciler c store now = record {
    store = store;
    settings = c;
    limiter =
        new_limiter m c.max_concurrent_operations c.max_concurrent_creates c.max_concurrent_deletes;
    throttle = new_gate tb;
    breaker = new_breaker cb;
    startup_hold = true;
    startup_polled = false;
    last_hold_log = 0;
    started_at = now;
    background_deletes = [];
    failed_create_cleanups = [];
    inflight_creates = [];
    running = [];
    poll_complete = false;
  }
