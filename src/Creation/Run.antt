-- ===== src/Creation/Run.antt =====
-- vcd.go, `createInstance`, in the order of its calls. A failure after the name is chosen
-- hands the name over to the failed-create cleanup.
use fleeting_plugin_vcd.Base.{
  if◌then◌else◌, String, str_eq, Bool, true, false, not, Option, none, some, List, [], ◌∷◌,
}
use fleeting_plugin_vcd.Config.{Plugin}
use fleeting_plugin_vcd.Creation.Parts.{
  present, get_vm_network_connection_section, get_storage_profile, get_vapp_template,
  get_default_compute_policy, create_raw_vapp, wait_for_vm_creation, inject_credentials,
  vm_requires_tpm, change_vm_tpm, change_disk_size, wait_for_ssh_readiness,
}
use fleeting_plugin_vcd.Reconciler.Finish.{
  CreateResult, CreateOutcome, created, create_failed, without, load_or_store,
}
use fleeting_plugin_vcd.Vcd.{
  gets_client, reads, adds_metadata, adds_network, adds_vm, changes_cpu, changes_memory, powers_on,
  Env, World, Result, ok, err, Action, pure, raise, see, ◌>>=◌, ◌>>◌, raise_if, optional, ask_once,
  ask, wait_task,
}
use fleeting_plugin_vcd.Waits.{get_primary_ip_address}
use Prim.Native.String.{◌++◌}

abbrev pub vapp_description : Plugin → String
vapp_description g = "VM created by the " ++ g.name ++ " GitLab Fleeting runner"

unfoldable pub own_name : String → Action (Unit {0})
own_name name w = (ok tt, record w { inflight_creates = name ∷ w.inflight_creates })

-- The deferred function, for a run that chose a name.
unfoldable pub hand_over : Env → String → World → World
hand_over env name w = record w {
  failed_create_cleanups = load_or_store name (env.clock w.log) w.failed_create_cleanups;
  inflight_creates = without name w.inflight_creates;
}

unfoldable pub one_vm : List String → Bool
one_vm [] = false
one_vm (vm ∷ []) = true
one_vm (vm ∷ other ∷ more) = false

unfoldable pub address_or_raise : Option String → Action String
address_or_raise none = raise "no primary IP address found"
address_or_raise (some ip) = pure ip

unfoldable pub suffix_or_raise : Option String → Action String
suffix_or_raise none = raise "no random suffix"
suffix_or_raise (some end) = pure end

module _ (env : Env) (g : Plugin) where
  -- What is looked up before anything is created.
  unfoldable pub look_up : Action (Unit {0})
  look_up = do
    ask_once env gets_client
    ask env (reads "GetOrgByName")
    ask env (reads "GetVDCByName")
    get_vapp_template env
    ask env (reads "GetOrgVdcNetworkByName")
    get_storage_profile env

  -- `generateVMName`, and the mark that the name is in flight.
  unfoldable pub choose_name : Action String
  unfolding own_name
  choose_name = do
    suffix ← see env.suffix
    end ← suffix_or_raise suffix
    own_name (g.vapp_name_prefix ++ "-" ++ end)
    pure (g.vapp_name_prefix ++ "-" ++ end)

  -- Steps 1 to 3: the empty vApp, its tag and its network.
  unfoldable pub create_vapp : String → Action (Unit {0})
  create_vapp name = do
    create_raw_vapp env name (vapp_description g)
    ask env (adds_metadata "vcd-instance-group" g.instance_group_name)
    ask_once env (adds_network g.network)
    wait_task env

  -- Steps 4 and 5, the VM, once the mode of its network connection is known.
  unfoldable pub add_vm_with : String → String → Action (Unit {0})
  unfolding one_vm
  add_vm_with name mode = do
    policy ← optional (get_default_compute_policy env)
    ask_once env (adds_vm name mode g.network policy)
    wait_task env
    ask env (reads "Refresh vApp after AddVM")
    v ← see env.vapp
    raise_if (not (one_vm v.vms)) "unexpected number of VMs in template"
    wait_for_vm_creation env

  unfoldable pub add_vm : String → Action (Unit {0})
  add_vm name = do mode ← get_vm_network_connection_section g; add_vm_with name mode

  unfoldable pub add_tpm : Action (Unit {0})
  add_tpm = do
    vm ← see env.vm
    spec ← present vm.spec
    if vm_requires_tpm env spec then change_vm_tpm env >> wait_task env else pure tt

  -- From the credentials to the disk.
  unfoldable pub configure_vm : Action (Unit {0})
  configure_vm = do
    inject_credentials env g
    add_tpm
    ask env (reads "Refresh VM")
    ask env (changes_cpu g.cpu_count g.cores_per_socket)
    ask env (changes_memory g.memory_mb)
    change_disk_size env g
    ask env (reads "Refresh VM after disk")

  -- The address, the power and the checks that the VM runs.
  unfoldable pub start_vm : Action String
  start_vm = do
    vm ← see env.vm
    ip ← address_or_raise (get_primary_ip_address vm.networks)
    ask env powers_on
    wait_task env
    ask env (reads "GetStatus")
    status ← see env.power_status
    raise_if (not (str_eq status "POWERED_ON")) "not powered on"
    wait_for_ssh_readiness env g ip
    pure ip

  unfoldable pub build : String → Action CreateResult
  build name = do
    create_vapp name
    add_vm name
    configure_vm
    ip ← start_vm
    v ← see env.vapp
    vm ← see env.vm
    pure (record {
      vapp_href = v.href;
      vapp_name = v.name;
      vm_name = vm.name;
      ip_address = ip;
      os_type = elim vm.spec [ none ↦ "" | some spec ↦ spec.os_type ];
    })

  -- The end of a run that chose a name.
  unfoldable pub settle_create : String → Result CreateResult × World → CreateOutcome × World
  unfolding hand_over
  settle_create name (ok c, w) = (created c, w)
  settle_create name (err e, w) = (create_failed e (some name), hand_over env name w)

  unfoldable pub run_named : Result String × World → CreateOutcome × World
  unfolding settle_create
  run_named (err e, w) = (create_failed e none, w)
  run_named (ok name, w) = settle_create name (build name w)

  unfoldable pub create_instance : World → CreateOutcome × World
  unfolding run_named
  create_instance w = run_named ((look_up >> choose_name) w)
