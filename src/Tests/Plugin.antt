-- ===== src/Tests/Plugin.antt =====
-- provider.go, config.go, session.go and vcd_safe.go at concrete values.
use fleeting_plugin_vcd.Base.{
  ℕ, suc, ◌+◌, ◌%◌, ◌^◌, ◌≡◌, refl, ◌≢◌, ◌↔◌, ◌⊎◌, inr, Among, String, Bool, true, false, Option,
  none, some, List, [], ◌∷◌, lookup, put, arith,
}
use fleeting_plugin_vcd.Backoff.{constant}
use fleeting_plugin_vcd.Call.{Attempt, answers, fails, Ended, single_vcd_call}
use fleeting_plugin_vcd.Call.Replays.{AreRejected, IsEnding, single_vcd_call-replays}
use fleeting_plugin_vcd.Config.{
  ℤ, pos, Plugin, Populated, validate, populate, duration_or, below_a_day, or_default,
}
use fleeting_plugin_vcd.Config.Checks.{IsComplete, LacksCredentials, validate-exact}
use fleeting_plugin_vcd.Waits.{Round, succeeds, wait_task_completion}
use fleeting_plugin_vcd.Waits.Ends.{IsSuccess, wait_task_completion-IsSuccess}
use fleeting_plugin_vcd.Deletion.{
  TaskRound, Answers, Target, rejected, started, refresh_vapp, delete_instance,
}
use fleeting_plugin_vcd.Deletion.Outcomes.{AreInOrder, IsAccepted, delete_instance-success}
use fleeting_plugin_vcd.Reconciler.Poll.{found, failed}
use fleeting_plugin_vcd.Provider.{state_running, update, connect_info, with_os, with_address}
use fleeting_plugin_vcd.Provider.Reports.{IsReported, update-exact}
use fleeting_plugin_vcd.Reconciler.Cycle.{instance_of}
use fleeting_plugin_vcd.Reconciler.Finish.{record_created}
use fleeting_plugin_vcd.Session.{
  Exchange, exchanges, relock, Session, locked, lock_session, session_expired, renew_locked,
  authenticate_locked,
}
use fleeting_plugin_vcd.Session.Renewal.{
  AnyFails, Refresh, refresh_each, refresh_each-once, lock_session-valid,
}
use fleeting_plugin_vcd.Store.{new_store, get_all, get_by_vapp_href}
use fleeting_plugin_vcd.Store.Ops.{add_create_intent, update_instance}
use fleeting_plugin_vcd.Store.Query.{leftover_count, size}
use fleeting_plugin_vcd.Tests.Store.{made}
use fleeting_plugin_vcd.Throttle.{new_gate}

-- A session of an hour that was renewed at 5.
abbrev session : Session
session = record {
  connected = true;
  last_authenticated = some 5;
  auth_generation = 7;
  session_refresh_interval = 3600;
}

abbrev refreshes : List Refresh
refreshes =
    record { context = none; token = none; at = 100 }
    ∷ record { context = none; token = none; at = 101 }
    ∷ []

refresh_each-once_example :
    ((refresh_each 7 refreshes session).auth_generation ≡ 7)
    ⊎ ((refresh_each 7 refreshes session).auth_generation ≡ (7 + 1) % 2 ^ 64)
refresh_each-once_example = refresh_each-once refreshes session (omega arith)

-- Another goroutine renews the session again before the call takes its read lock.
abbrev renewals : List Exchange
renewals = record { token = none; at = 9001 } ∷ []

session_locked : (lock_session none none (λ s. s) renewals 9000 session).1 ≡ locked 9
unfolding lock_session session_expired renew_locked authenticate_locked relock exchanges
session_locked = refl

lock_session-valid_example :
    ((session_expired 9000 (lock_session none none (λ s. s) renewals 9000 session).0 ≡ false)
      ⊎ AnyFails renewals)
    × ((lock_session none none (λ s. s) renewals 9000 session).0.auth_generation ≡ 9)
lock_session-valid_example =
    lock_session-valid none none (λ s. s) renewals 9000 session 9 refl (omega arith, tt)
      session_locked

-- A failed exchange of another goroutine there lets the call through on an expired session.
abbrev losses : List Exchange
losses = record { token = some "unreachable"; at = 9001 } ∷ []

expired_test :
    ((lock_session none none (λ s. s) losses 9000 session).1 ≡ locked 8)
    × (session_expired 9000 (lock_session none none (λ s. s) losses 9000 session).0 ≡ true)
unfolding lock_session session_expired renew_locked authenticate_locked relock exchanges
expired_test = (refl, refl)

-- One rejection because of the operation limit, then an answer.
abbrev attempts : List (Attempt ℕ)
attempts =
    fails
      (record {
        lowered = "the maximum number of simultaneous operations is reached";
        unauthorized = false;
      })
      10 none none
    ∷ answers 3
    ∷ []

attempts-IsEnding : IsEnding attempts
attempts-IsEnding = inr tt

single_vcd_call-replays_example :
    (e : Ended ℕ (constant 30)) × (single_vcd_call (constant 30) (new_gate (constant 30)) attempts
      ≡ some e)
    × ((k : ℕ) × (e.attempts ≡ suc k) × AreRejected k attempts)
single_vcd_call-replays_example =
    single_vcd_call-replays (constant 30) (new_gate (constant 30)) attempts attempts-IsEnding

update-exact_example :
    (Among ("https://vcd/vapp-1", state_running) (update made).0
      ↔ IsReported (get_all made) "https://vcd/vapp-1" state_running)
    × ((update made).1 + leftover_count made ≡ size made)
update-exact_example = update-exact made "https://vcd/vapp-1" state_running

abbrev no_vm : String → Option String
no_vm href = none

connected_test : (connect_info no_vm made "https://vcd/vapp-1").1 ≡ none
unfolding connect_info instance_of get_by_vapp_href with_os with_address put lookup
    add_create_intent new_store record_created update_instance
connected_test = refl

abbrev pub plugin : Plugin
plugin = record {
  protocol = "";
  protocol_port = 0;
  os = "linux";
  use_static_credentials = true;
  password = "secret";
  key = none;
  name = "runners";
  str_url = "https://vcd/api";
  org = "org";
  token = "token";
  virtual_datacenter = "vdc";
  network = "net";
  ip_allocation_mode = "POOL";
  instance_group_name = "group";
  vapp_name_prefix = "runner";
  catalog = "catalog";
  template = "ubuntu";
  storage_profile = "fast";
  cpu_count = pos 2;
  cores_per_socket = pos 1;
  memory_mb = pos 4096;
  disk_size_gb = pos 40;
  max_concurrent_creates = pos 0;
  max_concurrent_deletes = pos 2;
  max_concurrent_operations = pos 6;
  session_refresh_interval = "";
  create_timeout = "10s";
  startup_cleanup_timeout = "";
}

abbrev pub any_url : String → Bool
any_url text = true

abbrev pub ten_seconds : String → Option ℤ
ten_seconds text = some (pos 10_000_000_000)

validate-exact_example :
    (((validate any_url plugin).1 ≡ []) ↔ (¬ LacksCredentials plugin × IsComplete any_url plugin))
    × ((validate any_url plugin).0.protocol ≢ "")
validate-exact_example = validate-exact any_url plugin

abbrev pub populated : Populated
populated = record {
  refresh_interval = 72_000_000_000_000;
  create_limit = 10_000_000_000;
  cleanup_limit = 1_800_000_000_000;
  creates = 3;
  deletes = 2;
  operations = 6;
}

plugin-populated : populate any_url ten_seconds plugin ≡ some populated
unfolding populate duration_or below_a_day or_default
plugin-populated = refl

abbrev settled : TaskRound
settled = record {
  context = none;
  vapp_refresh = none;
  vm_refresh = none;
  vapp_tasks = "success" ∷ [];
  vm_tasks = [];
}

-- A vApp that is powered off already.
abbrev pub deletion_answers : Answers
deletion_answers = record {
  client = none;
  refreshes = failed ∷ found (record { name = "runner-1"; vms = "https://vcd/vm-1" ∷ [] }) ∷ [];
  vm_refresh = none;
  vapp_tasks = "queued" ∷ [];
  vm_tasks = [];
  task_rounds = settled ∷ [];
  power_off = rejected "not running";
  undeploy = started none;
  deletion = started none;
  power_off_again = 0;
  undeploy_again = 2;
  deletion_again = 1;
}

delete_instance-success_example :
    AreInOrder deletion_answers (delete_instance deletion_answers).0
    × (((delete_instance deletion_answers).1 ≢ none)
        ⊎ ((v : Target) × (refresh_vapp deletion_answers.refreshes ≡ some v)
            × (v.name ≡ "")
            × ((delete_instance deletion_answers).0 ≡ []))
        ⊎ IsAccepted deletion_answers (delete_instance deletion_answers).0)
delete_instance-success_example = delete_instance-success deletion_answers

abbrev rounds : List Round
rounds =
    record { refresh = none; status = "running"; pause = none }
    ∷ record { refresh = none; status = "success"; pause = none }
    ∷ []

wait_task_completion-IsSuccess_example :
    (wait_task_completion rounds ≡ some succeeds) ↔ IsSuccess rounds
wait_task_completion-IsSuccess_example = wait_task_completion-IsSuccess rounds
