-- ===== src/Creation/Parts.antt =====
-- vcd.go and vcd_create.go: the functions that `createInstance` calls. A nil dereference panics,
-- and the panic becomes the error of `createInstance`. The text by which a function extends an
-- error is left out.
use fleeting_plugin_vcd.Base.{
  ℕ, suc, ◌-◌, ◌*◌, ◌%◌, ◌^◌, ltb, leb, ◌==◌, if◌then◌else◌, String, str_eq, Bool, true, false, not,
  ◌&&◌, Option, none, some, List, [], ◌∷◌,
}
use fleeting_plugin_vcd.Call.{matches_any, permanent_error_patterns}
use fleeting_plugin_vcd.Config.{ℤ, pos, negsuc, Plugin}
use fleeting_plugin_vcd.Store.Ops.{second}
use fleeting_plugin_vcd.Text.{contains_text, to_lower}
use fleeting_plugin_vcd.Vcd.{
  Request, Script, linux_script, windows_script, reads, gets_client, sleeps, dials, composes_vapp,
  customizes, edits_tpm, updates_disk, Spec, VApp, Env, Action, pure, raise, see, ◌>>=◌, ◌>>◌,
  raise_some, raise_if, note, attempt, attempt_once, ask_once, ask, wait_task,
}
use fleeting_plugin_vcd.Waits.{wait_until, wait_for_handshake}

abbrev pub panics : String
panics = "panic in createInstance"

-- The section that a nil pointer may lack.
unfoldable pub present : {A : Type 0} → Option A → Action A
present none = raise panics
present (some a) = pure a

abbrev pub is_none {ℓ} : {A : Type ℓ} → Option A → Bool
is_none none = true
is_none (some _) = false

-- Configured sizes are Go integers of 64 bits: the value of a bit pattern, and `int64(n) * 1024`.
unfoldable pub int64 : ℕ → ℤ
int64 n = if ltb n (2 ^ 63) then pos n else negsuc (2 ^ 64 - n - 1)

unfoldable pub disk_size_mb : ℤ → ℤ
unfolding int64
disk_size_mb (pos n) = int64 (n * 1024 % 2 ^ 64)
disk_size_mb (negsuc n) = int64 ((2 ^ 64 - suc n * 1024 % 2 ^ 64) % 2 ^ 64)

abbrev pub leb_ℤ : ℤ → ℤ → Bool
leb_ℤ (pos a) (pos b) = leb a b
leb_ℤ (pos a) (negsuc b) = false
leb_ℤ (negsuc a) (pos b) = true
leb_ℤ (negsuc a) (negsuc b) = leb b a

-- The mode of the network connection of a new VM, `getVMNetworkConnectionSection`.
unfoldable pub get_vm_network_connection_section : Plugin → Action String
get_vm_network_connection_section g =
    if str_eq g.ip_allocation_mode "DHCP"
    then pure "DHCP"
    else if str_eq g.ip_allocation_mode "POOL"
    then pure "POOL"
    else raise "invalid IP allocation mode"

module _ (env : Env) where
  unfoldable pub get_storage_profile : Action (Unit {0})
  get_storage_profile = do
    ask_once env gets_client
    ask env (reads "GetOrgByName(storage)")
    ask env (reads "GetVDCByName(storage)")
    ask env (reads "FindStorageProfileReference")

  unfoldable pub get_vapp_template : Action (Unit {0})
  get_vapp_template = do
    ask_once env gets_client
    ask env (reads "GetOrgByName(template)")
    ask env (reads "GetCatalogByName")
    ask env (reads "GetCatalogItemByName")
    ask env (reads "GetVAppTemplate")
    status ← see env.template_status
    raise_if (not (status == 8)) "template not ready (status != 8)"

  unfoldable pub get_default_compute_policy : Action String
  get_default_compute_policy = do
    ask_once env gets_client
    ask env (reads "GetOrgByName(computePolicy)")
    ask env (reads "GetVDCByName(computePolicy)")
    policy ← see env.default_policy
    raise_if (is_none policy) "default compute policy not found"
    ask env (reads "GetVdcComputePolicyById(computePolicy)")
    present policy

  -- The part of `createRawVApp` after the POST, given its error.
  unfoldable pub recover_create : Option String → Action (Unit {0})
  recover_create none = pure tt
  recover_create (some e) =
      if matches_any permanent_error_patterns (to_lower e)
        && not (contains_text (to_lower e) "already exists")
      then raise e
      else (do
        failure ← attempt env (reads "GetVAppByName(recover create)")
        raise_if (not (is_none failure)) e)

  -- The loop over `Tasks`, whose nil pointers are skipped.
  unfoldable pub wait_tasks : List Bool → Action (Unit {0})
  wait_tasks [] = pure tt
  wait_tasks (given ∷ tasks) =
      let rest = wait_tasks tasks in if given then wait_task env >> rest else rest

  unfoldable pub task_list : Option (List Bool) → List Bool
  task_list none = []
  task_list (some tasks) = tasks

  unfoldable pub has_vms : VApp → Bool
  has_vms v = elim v.vms [ [] ↦ false | _ ∷ _ ↦ true ]

  unfoldable pub create_raw_vapp : String → String → Action (Unit {0})
  unfolding task_list has_vms
  create_raw_vapp name description = do
    failure ← attempt_once env (composes_vapp name description)
    recover_create failure
    tasks ← see (λ log. (env.vapp log).tasks)
    wait_tasks (task_list tasks)
    ask env (reads "Refresh vApp(create)")
    v ← see env.vapp
    raise_if (has_vms v) "recovered vApp is not empty"

  unfoldable pub wait_for_vm_creation : Action (Unit {0})
  wait_for_vm_creation = do
    ask env (reads "Refresh VM(waitCreate)")
    statuses ← see env.status_looks
    note (reads "GetStatus(waitCreate)")
    raise_some (wait_until (λ st. str_eq st "POWERED_OFF") statuses)
    no_tasks ← see env.task_looks
    note (reads "Refresh vApp(waitCreate)")
    raise_some (wait_until (λ none_left. none_left) no_tasks)
    ask_once env (sleeps (15 * second))
    vm ← see env.vm
    raise_if (is_none vm.spec) "VM spec section not found"
    ask env (reads "Refresh VM(waitCreate final)")

  -- The script for the configured key.
  unfoldable pub customization_script : Option String → Action (Option Script)
  customization_script none = pure none
  customization_script (some key) = do
    public_key ← present (env.public_key key)
    vm ← see env.vm
    spec ← present vm.spec
    raise_if (not vm.has_customization) panics
    pure (
        some (
          if contains_text spec.os_type "windows"
          then windows_script public_key
          else linux_script public_key))

  unfoldable pub inject_credentials : Plugin → Action (Unit {0})
  inject_credentials g =
      if not g.use_static_credentials
      then raise "dynamic credentials are not supported yet"
      else (do
        vm ← see env.vm
        raise_if (not (str_eq g.password "") && not vm.has_customization) panics
        script ← customization_script g.key
        ask env (
            customizes (record {
              admin_password = if str_eq g.password "" then none else some g.password;
              script = script;
            })))

  unfoldable pub vm_requires_tpm : Spec → Bool
  vm_requires_tpm spec = contains_text (to_lower spec.os_type) "windows11"

  unfoldable pub change_vm_tpm : Action (Unit {0})
  change_vm_tpm = do
    failure ← attempt env (edits_tpm true)
    raise_if (not (is_none failure)) "could not execute task request"

  unfoldable pub change_disk : ℤ → List ℤ → Action (Unit {0})
  change_disk wanted [] = raise "disk section not found"
  change_disk wanted (size ∷ _) =
      if leb_ℤ wanted size
      then pure tt
      else (do ask env (updates_disk wanted); ask env (reads "Refresh VM(disk)"))

  unfoldable pub change_disk_size : Plugin → Action (Unit {0})
  unfolding disk_size_mb
  change_disk_size g = do
    vm ← see env.vm
    spec ← present vm.spec
    change_disk (disk_size_mb g.disk_size_gb) spec.disks

  unfoldable pub signer_error : Option String → Option String
  signer_error none = none
  signer_error (some key) = env.signer key

  -- Without static credentials there is no check.
  unfoldable pub dial_unless : Bool → Request → Action (Unit {0})
  dial_unless skip r =
      if skip
      then pure tt
      else (do handshakes ← see env.dials_made; note r; raise_some (wait_for_handshake handshakes))

  unfoldable pub wait_for_ssh_readiness : Plugin → String → Action (Unit {0})
  unfolding signer_error dial_unless
  wait_for_ssh_readiness g ip = do
    raise_some (signer_error g.key)
    dial_unless (str_eq g.password "" && is_none g.key) (
        dials ip (if g.protocol_port == 0 then 22 else g.protocol_port)
          (if contains_text (to_lower g.os) "windows" then "Administrator" else "root"))
