-- ===== src/Provider.antt =====
-- provider.go: what the plugin tells GitLab Runner of the instances. `update` is called for each
-- pair of the result, in order; `getVMFromVAppHREF` is an argument, which gives the OS type of the
-- VM, or none where reading it fails. Settings that are only passed on are left out.
pub mod Reports
pub mod Init
use fleeting_plugin_vcd.Base.{
  ℕ, suc, if◌then◌else◌, String, str_eq, Bool, true, false, not, ◌||◌, Option, none, some, List, [],
  ◌∷◌, length,
}
use fleeting_plugin_vcd.Text.{contains_text}
use fleeting_plugin_vcd.Instance.{
  Phase, pending_create, creating, running, pending_delete, deleting, deleted, phase_eq, Instance,
}
use fleeting_plugin_vcd.Reconciler.Cycle.{instance_of}
use fleeting_plugin_vcd.Store.{Store, get_all}

-- `provider.State`
pub data State : Type 0 where
  state_creating state_running state_deleting : State

-- The switch of `Update`.
unfoldable pub state_of : Phase → State
state_of pending_create = state_creating
state_of creating = state_creating
state_of running = state_running
state_of pending_delete = state_deleting
state_of deleting = state_deleting
state_of deleted = state_running

-- The loop of `Update`: the calls of `update`, and the size of the pool.
unfoldable pub report : List Instance → List (String × State) × ℕ
report [] = ([], 0)
report (i ∷ is) =
    let (calls, size) = report is in
    if phase_eq i.phase deleted || i.leftover
    then (calls, size)
    else if str_eq i.id ""
    then (calls, suc size)
    else ((i.id, state_of i.phase) ∷ calls, suc size)

-- `Update`
unfoldable pub update : Store → List (String × State) × ℕ
unfolding report
update s = report (get_all s)

-- `provider.ConnectInfo`
pub record ConnectInfo : Type 0 where
  pub arch : String
  pub os : String
  pub username : String
  pub protocol : String
  pub internal_addr : String
  pub external_addr : String

abbrev pub zero_info : ConnectInfo
zero_info = record {
  arch = "";
  os = "";
  username = "";
  protocol = "";
  internal_addr = "";
  external_addr = "";
}

-- The two branches on the OS type.
unfoldable pub with_os : String → ConnectInfo → ConnectInfo
with_os os_type info =
    if contains_text os_type "windows"
    then record info { os = "windows"; username = "Administrator" }
    else record info { os = "linux"; username = "root" }

-- The end of `ConnectInfo`, once the OS is known.
unfoldable pub with_address : Instance → ConnectInfo → ConnectInfo × Option String
with_address i info =
    let ssh : ConnectInfo = record info { protocol = "ssh" } in
    if str_eq i.ip_address ""
    then (ssh, some "no IP address found for instance")
    else (record ssh { internal_addr = i.ip_address; external_addr = i.ip_address }, none)

-- `ConnectInfo`: the information and the error.
unfoldable pub connect_info :
    (String → Option String) → Store → String → ConnectInfo × Option String
unfolding with_os with_address
connect_info get_vm s id =
    let info : ConnectInfo = record zero_info { arch = "amd64" } in
    elim (instance_of s id) [
      | none ↦ (zero_info, some "instance not found")
      | some i ↦
          if not (str_eq i.os_type "")
          then with_address i (with_os i.os_type info)
          else elim (get_vm id) [
            | none ↦ (info, some "VM not read")
            | some os_type ↦ with_address i (with_os os_type info)
          ]
    ]

-- `Increase`: the length of what the reconciler returns. `Decrease`: the instances that it is given,
-- and those for which the reconciler is called.
unfoldable pub increased : List String → ℕ
increased ids = length ids

unfoldable pub decreased : List String → List String × List String
decreased [] = ([], [])
decreased (id ∷ ids) = (id ∷ ids, id ∷ ids)
