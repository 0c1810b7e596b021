-- ===== src/Waits.antt =====
-- vcd_create.go, `waitTaskCompletion`, and vcd.go, `getPrimaryIPAddress`: loops over what vCD
-- answers. The answers to come are a list, which a wait uses up from the front.
pub mod Ends
pub mod Deadline
use fleeting_plugin_vcd.Base.{
  ℕ, zero, suc, ◌+◌, ◌*◌, ltb, if◌then◌else◌, String, str_eq, Bool, true, false, not, ◌&&◌, ◌||◌,
  Option, none, some, List, [], ◌∷◌,
}
use fleeting_plugin_vcd.Store.Ops.{second, minute}

-- One round of `waitTaskCompletion`: how the refresh ends, the status that it read, and whether the
-- context ends during the pause that follows.
pub record Round : Type 0 where
  pub refresh : Option String
  pub status : String
  pub pause : Option String

-- The statuses on which the wait goes on.
abbrev pub is_running_status : String → Bool
is_running_status st = str_eq st "queued" || (str_eq st "preRunning" || str_eq st "running")

pub data Wait : Type 0 where
  succeeds : Wait
  errs : String → Wait
  ends_with : String → Wait  -- another status of the task

-- `waitTaskCompletion`; none where the answers run out before it ends.
unfoldable pub wait_task_completion : List Round → Option Wait
wait_task_completion [] = none
wait_task_completion (r ∷ rest) =
    let later = wait_task_completion rest in
    elim r.refresh [
      | some e ↦ some (errs e)
      | none ↦
          if str_eq r.status "success"
          then some succeeds
          else if is_running_status r.status
          then elim r.pause [ some e ↦ some (errs e) | none ↦ later ]
          else some (ends_with r.status)
    ]

pub record NetworkConnection : Type 0 where
  pub is_connected : Bool
  pub ip_address : String

-- The loop of `getPrimaryIPAddress`.
unfoldable pub first_address : List NetworkConnection → Option String
first_address [] = none
first_address (n ∷ ns) =
    let later = first_address ns in
    if n.is_connected && not (str_eq n.ip_address "") then some n.ip_address else later

-- `getPrimaryIPAddress`, of a network section that may be missing; none is an error.
unfoldable pub get_primary_ip_address : Option (List NetworkConnection) → Option String
unfolding first_address
get_primary_ip_address none = none
get_primary_ip_address (some networks) = first_address networks

-- The error with which `waitTaskCompletion` ends; where the rounds run out the context has ended.
unfoldable pub wait_error : Option Wait → Option String
wait_error none = some "context deadline exceeded"
wait_error (some succeeds) = none
wait_error (some (errs e)) = some e
wait_error (some (ends_with st)) = some st

-- One round of a loop that looks at vCD: how the look ends, what it sees, and whether the context
-- ends in the pause that follows.
pub record Look {ℓ} (A : Type ℓ) : Type ℓ where
  pub failure : Option String
  pub seen : A
  pub pause : Option String

-- A loop of `waitForVMCreation`, which ends on what `done` accepts.
module _ {ℓ} {A : Type ℓ} (done : A → Bool) where
  unfoldable pub wait_until : List (Look A) → Option String
  wait_until [] = some "context deadline exceeded"
  wait_until (l ∷ rest) =
      let later = wait_until rest in
      elim l.failure [
        | some e ↦ some e
        | none ↦ if done l.seen then none else elim l.pause [ some e ↦ some e | none ↦ later ]
      ]

-- The loop of `waitForSSHReadiness`: whether each handshake passes, and whether the context ends in
-- the pause that follows.
unfoldable pub wait_for_handshake : List (Bool × Option String) → Option String
wait_for_handshake [] = some "context deadline exceeded"
wait_for_handshake ((passes, pause) ∷ rest) =
    let later = wait_for_handshake rest in
    if passes then none else elim pause [ some e ↦ some e | none ↦ later ]

-- What one refresh of a task answers, and how long it takes.
pub record Reading : Type 0 where
  pub refresh : Option String
  pub status : String
  pub took : ℕ

abbrev pub task_poll_interval : ℕ
task_poll_interval = 3 * second

abbrev pub task_timeout : ℕ
task_timeout = 60 * minute

-- The first rounds of `waitTaskCompletion` from the time `now` on, as many as its first argument
-- says, under a context that ends at `deadline`: a pause that would end later is cut off.
unfoldable pub timed_rounds : ℕ → (ℕ → Reading) → (k deadline now : ℕ) → List Round
timed_rounds zero readings k deadline now = []
timed_rounds (suc n) readings k deadline now =
    let woken = now + (readings k).took + task_poll_interval in
    record {
      refresh = (readings k).refresh;
      status = (readings k).status;
      pause = if ltb deadline woken then some "context deadline exceeded" else none;
    }
    ∷ timed_rounds n readings (k + 1) deadline woken
