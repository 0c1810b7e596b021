-- ===== src/Tests/Creation.antt =====
-- vcd.go, `createInstance` and what it calls, with a vCD that answers as it should, and with some
-- that do not.
use fleeting_plugin_vcd.Base.{
  ◌≡◌, refl, if◌then◌else◌, String, Bool, true, false, none, some, List, [], ◌∷◌, ◌++◌, length,
  lookup, put,
}
use fleeting_plugin_vcd.Config.{pos}
use fleeting_plugin_vcd.Creation.Ends.{
  IsPlanned, IsOwned, create_instance-IsPlanned, create_instance-IsOwned,
}
use fleeting_plugin_vcd.Reconciler.Finish.{created, create_failed}
use fleeting_plugin_vcd.Tests.Plugin.{plugin}
use fleeting_plugin_vcd.Vcd.{
  Request, composes_vapp, adds_metadata, adds_network, adds_vm, customizes, edits_tpm, changes_cpu,
  changes_memory, updates_disk, powers_on, Vm, Env, World,
}
use fleeting_plugin_vcd.Vcd.Plans.{changes}
use fleeting_plugin_vcd.Creation.Parts.{
  change_disk, change_disk_size, change_vm_tpm, customization_script, dial_unless, disk_size_mb,
  get_default_compute_policy, get_vm_network_connection_section, has_vms, inject_credentials, int64,
  present, signer_error, task_list, vm_requires_tpm, wait_for_ssh_readiness, wait_for_vm_creation,
  get_vapp_template, get_storage_profile, create_raw_vapp, recover_create, wait_tasks,
}
use fleeting_plugin_vcd.Creation.Run.{
  add_vm, add_tpm, add_vm_with, address_or_raise, configure_vm, hand_over, one_vm, own_name,
  run_named, settle_create, start_vm, look_up, choose_name, suffix_or_raise, build, create_vapp,
  create_instance,
}
use fleeting_plugin_vcd.Vcd.{
  attempt_once, ask_once, note_times, attempt, continue, note, optional, pure, raise, raise_some,
  see, succeeded_with, ◌>>=◌, ask, raise_if, wait_task,
}
use fleeting_plugin_vcd.Waits.{
  wait_error, wait_task_completion, first_address, get_primary_ip_address, wait_for_handshake,
  wait_until,
}
use fleeting_plugin_vcd.Text.{lower_char, to_lower}
use fleeting_plugin_vcd.Reconciler.Finish.{load_or_store, without}
use fleeting_plugin_vcd.Call.{matches_any}
use fleeting_plugin_vcd.Waits.{Round}

abbrev pub adds_some_vm : Request → Bool
adds_some_vm (adds_vm name mode network policy) = true
adds_some_vm _ = false

abbrev pub has_vm : List Request → Bool
has_vm [] = false
has_vm (r ∷ rs) = if adds_some_vm r then true else has_vm rs

abbrev powers : Request → Bool
powers powers_on = true
powers _ = false

abbrev composes : Request → Bool
composes (composes_vapp name description) = true
composes _ = false

abbrev pub windows_vm : Vm
windows_vm = record {
  name = "vm";
  spec = some (record { os_type = "windows11_64Guest"; disks = pos 20480 ∷ [] });
  networks = some (record { is_connected = true; ip_address = "10.0.0.7" } ∷ []);
  has_customization = true;
}

abbrev pub success : List Round
success = record { refresh = none; status = "success"; pause = none } ∷ []

-- A vCD in which the calls that `fails` accepts fail with the text.
abbrev pub vcd : (Request → Bool) → String → Env
vcd fails text = record {
  error = λ r log. if fails r then some text else none;
  again = λ r log. if powers r then 1 else 0;
  vapp = λ log. record {
    href = "https://vcd/vapp-9";
    name = "runner-abc";
    tasks = none;
    vms = if has_vm log then "https://vcd/vm-9" ∷ [] else [];
  };
  vm = λ log. windows_vm;
  template_status = λ log. 8;
  default_policy = λ log. none;
  power_status = λ log. "POWERED_ON";
  task_rounds = λ log. success;
  status_looks = λ log. record { failure = none; seen = "POWERED_OFF"; pause = none } ∷ [];
  task_looks = λ log. record { failure = none; seen = true; pause = none } ∷ [];
  dials_made = λ log. (false, none) ∷ (true, none) ∷ [];
  suffix = λ log. some "abc";
  signer = λ key. none;
  public_key = λ key. some "ssh-ed25519 AAAA";
  clock = λ log. 77;
}

abbrev pub idle : World
idle = record { log = []; inflight_creates = "other" ∷ []; failed_create_cleanups = [] }

abbrev good : Env
good = vcd (λ r. false) ""

abbrev adopting : Env
adopting = vcd composes "Already Exists"

abbrev refusing : Env
refusing = vcd composes "Unable to perform this action"

abbrev no_power : Env
no_power = vcd powers "busy"

-- The run returns its result after ten changes, in order, the last of which is sent twice. Where the POST is answered with an
-- error and the vApp is there, the run adopts it; where the error is permanent, it fails. Where the
-- VM cannot be powered on, the name is left to the cleanup.
runs_test :
    ((create_instance good plugin idle).0
      ≡ created (record {
        vapp_href = "https://vcd/vapp-9";
        vapp_name = "runner-abc";
        vm_name = "vm";
        ip_address = "10.0.0.7";
        os_type = "windows11_64Guest";
      }))
    × (changes (create_instance good plugin idle).1.log
        ≡ composes_vapp "runner-abc" "VM created by the runners GitLab Fleeting runner"
          ∷ adds_metadata "vcd-instance-group" "group"
          ∷ adds_network "net"
          ∷ adds_vm "runner-abc" "POOL" "net" none
          ∷ customizes (record { admin_password = some "secret"; script = none })
          ∷ edits_tpm true
          ∷ changes_cpu (pos 2) (pos 1)
          ∷ changes_memory (pos 4096)
          ∷ updates_disk (pos 40960)
          ∷ powers_on
          ∷ powers_on
          ∷ [])
    × (length (changes (create_instance adopting plugin idle).1.log) ≡ 11)
    × ((create_instance refusing plugin idle).0
        ≡ create_failed "Unable to perform this action" (some "runner-abc"))
    × (lookup "runner-abc" (create_instance no_power plugin idle).1.failed_create_cleanups
        ≡ some 77)
unfolding change_disk change_disk_size change_vm_tpm customization_script dial_unless disk_size_mb
    get_default_compute_policy get_vm_network_connection_section has_vms inject_credentials int64
    present signer_error task_list vm_requires_tpm wait_for_ssh_readiness wait_for_vm_creation
    get_vapp_template get_storage_profile create_raw_vapp recover_create wait_tasks add_vm add_tpm
    add_vm_with address_or_raise configure_vm hand_over one_vm own_name run_named settle_create
    start_vm look_up choose_name suffix_or_raise build create_vapp create_instance attempt_once
    ask_once note_times attempt continue note optional pure raise raise_some see succeeded_with
    ◌>>=◌ ask raise_if wait_task wait_error wait_task_completion first_address
    get_primary_ip_address wait_for_handshake wait_until lower_char to_lower load_or_store without
    matches_any lookup put
runs_test = (refl, refl, refl, refl, refl)

create_instance-IsPlanned_example :
    (rs : List Request) × (changes (create_instance good plugin idle).1.log ≡ [] ++ rs)
    × IsPlanned good plugin rs (create_instance good plugin idle).0
create_instance-IsPlanned_example = create_instance-IsPlanned good plugin idle

create_instance-IsOwned_example :
    IsOwned no_power plugin idle (create_instance no_power plugin idle)
create_instance-IsOwned_example = create_instance-IsOwned no_power plugin idle
