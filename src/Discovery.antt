-- ===== src/Discovery.antt =====
-- vcd.go: the reads of the poll, `getInstancesInInstanceGroup` and `pollVM`, and the read of
-- `ConnectInfo`, `getVMFromVAppHREF`. How the read of one vApp or VM ends is an argument; a panic in
-- the search is one of its errors.
pub mod Safe
use fleeting_plugin_vcd.Base.{
  String, Option, none, some, List, [], ◌∷◌, if◌then◌else◌, Bool, true, false, not,
}
use fleeting_plugin_vcd.Creation.Run.{one_vm}
use fleeting_plugin_vcd.Reconciler.Poll.{
  Read, found, gone, failed, VApp, ListedVApp, read_listed_vapps, VmPollResult, is_empty,
}
use fleeting_plugin_vcd.Vcd.{
  Request, gets_client, reads, Vm, Env, Result, ok, err, Action, pure, see, ◌>>=◌, ◌>>◌, raise_if,
  ask_once, ask,
}
use fleeting_plugin_vcd.Waits.{get_primary_ip_address}

module _ (env : Env) where
  -- The vApps that could be read, and the HREFs of those that could not.
  unfoldable pub get_instances_in_instance_group :
      (List Request → List ListedVApp) → (String → Read VApp) → Action (List VApp × List String)
  get_instances_in_instance_group search read = do
    ask_once env gets_client
    ask env (reads "GetOrgByName(poll)")
    ask env (reads "GetVDCByName(poll)")
    ask env (reads "SearchByFilter")
    listed ← see search
    pure (read_listed_vapps read listed)

  unfoldable pub get_vm_from_vapp_href : Action Vm
  get_vm_from_vapp_href = do
    ask_once env gets_client
    ask env (reads "Refresh vApp(getVM)")
    v ← see env.vapp
    raise_if (is_empty v.vms) "vApp has no VMs"
    raise_if (not (one_vm v.vms)) "unexpected number of VMs in template"
    ask env (reads "Refresh VM(getVM)")
    see env.vm

-- The listing as `pollVCD` takes it.
unfoldable pub listing_of : Result (List VApp × List String) → Option (List VApp × List String)
listing_of (ok listing) = some listing
listing_of (err e) = none

abbrev pub text_or_empty : Option String → String
text_or_empty none = ""
text_or_empty (some text) = text

-- What the poll takes from a VM that was read; a missing address is an empty one.
unfoldable pub poll_result_of : Vm → VmPollResult
poll_result_of vm = record {
  ip = text_or_empty (get_primary_ip_address vm.networks);
  os_type = elim vm.spec [ none ↦ "" | some spec ↦ spec.os_type ];
}

-- `pollVM`, given the error of `getVCDClient` and how the refresh of the VM ends.
unfoldable pub poll_vm : Option String → Read Vm → Read VmPollResult
unfolding poll_result_of
poll_vm (some e) vm = failed
poll_vm none (found vm) = found (poll_result_of vm)
poll_vm none gone = gone
poll_vm none failed = failed
