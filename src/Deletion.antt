-- ===== src/Deletion.antt =====
-- vcd.go, `deleteInstance`: the requests that delete a vApp. How each call of `safeVCDCall` ends, and
-- how often it has sent its request again by then, is an argument. The requests that change vCD are
-- kept in the order in which they are sent, with the same two conventions as in Vcd: a request that
-- vCD rejects because of its operation limit is not kept, and one whose call fails before its first
-- attempt is. Logs are left out.
pub mod Outcomes
pub mod Cleanup
use fleeting_plugin_vcd.Base.{
  ℕ, zero, suc, ◌++◌, ◌==◌, if◌then◌else◌, String, str_eq, Bool, true, false, not, ◌||◌, Option,
  none, some, List, [], ◌∷◌, length,
}
use fleeting_plugin_vcd.Reconciler.Poll.{Read, found, gone, failed}

-- The vApp as `Refresh` reads it: its name and the HREFs of its VMs.
pub record Target : Type 0 where
  pub name : String
  pub vms : List String

-- A call that starts a task, and how `waitTaskCompletion` on the task ends.
pub data TaskCall : Type 0 where
  rejected : String → TaskCall
  started : Option String → TaskCall

-- One round of `waitForTasksCompletion`: whether the context ends in the pause, how the two
-- refreshes end, and the statuses that they read.
pub record TaskRound : Type 0 where
  pub context : Option String
  pub vapp_refresh : Option String
  pub vm_refresh : Option String
  pub vapp_tasks : List String
  pub vm_tasks : List String

pub record Answers : Type 0 where
  pub client : Option String  -- the error of `getVCDClient`
  pub refreshes : List (Read Target)  -- each attempt of `refreshVappOp`
  pub vm_refresh : Option String
  pub vapp_tasks : List String  -- the statuses of the tasks of the vApp, and of the VM, as read
  pub vm_tasks : List String
  pub task_rounds : List TaskRound
  pub power_off : TaskCall
  pub undeploy : TaskCall
  pub deletion : TaskCall
  pub power_off_again : ℕ  -- how often `safeVCDCall` sends the request again
  pub undeploy_again : ℕ
  pub deletion_again : ℕ

pub data Request : Type 0 where
  powers_off undeploys deletes_vapp : Request

-- A request that is sent so many times.
unfoldable pub repeat : ℕ → Request → List Request
repeat zero r = []
repeat (suc n) r = r ∷ repeat n r

-- `backoff.Retry(refreshVappOp, …)`, which gives up when the attempts end: a vApp that is gone
-- leaves a new `VApp`, whose name is empty.
unfoldable pub refresh_vapp : List (Read Target) → Option Target
refresh_vapp [] = none
refresh_vapp (found v ∷ rest) = some v
refresh_vapp (gone ∷ rest) = some (record { name = ""; vms = [] })
refresh_vapp (failed ∷ rest) = refresh_vapp rest

-- A deletion whose failure is returned.
unfoldable pub finish : TaskCall → Option String
finish (rejected e) = some e
finish (started wait) = wait

-- A power-off or an undeployment: a rejection is taken to mean that it is not needed.
unfoldable pub tolerate : TaskCall → Option String
tolerate (rejected e) = none
tolerate (started wait) = wait

abbrev pub is_ended : String → Bool
is_ended status = str_eq status "success" || (str_eq status "error" || str_eq status "aborted")

-- `hasRunningTasks`, of the statuses of a section that may be missing, which is then empty.
unfoldable pub has_running_tasks : List String → Bool
has_running_tasks [] = false
has_running_tasks (status ∷ rest) = not (is_ended status) || has_running_tasks rest

-- `waitForTasksCompletion`: the rounds go up to the end of the context.
unfoldable pub wait_for_tasks_completion :
    List String → List String → List TaskRound → Option String
unfolding has_running_tasks
wait_for_tasks_completion vapp_tasks vm_tasks [] =
    if has_running_tasks vapp_tasks || has_running_tasks vm_tasks
    then some "context deadline exceeded"
    else none
wait_for_tasks_completion vapp_tasks vm_tasks (r ∷ rest) =
    let later = wait_for_tasks_completion r.vapp_tasks r.vm_tasks rest in
    if has_running_tasks vapp_tasks || has_running_tasks vm_tasks
    then elim r.context [
      | some e ↦ some e
      | none ↦ elim r.vapp_refresh [
        | some e ↦ some e
        | none ↦ elim r.vm_refresh [ some e ↦ some e | none ↦ later ]
      ]
    ]
    else none

unfoldable pub pending_tasks : Answers → Option String
pending_tasks a = wait_for_tasks_completion a.vapp_tasks a.vm_tasks a.task_rounds

-- The part of `deleteInstance` for a vApp whose VM could be read.
unfoldable pub delete_running : Answers → List Request × Option String
unfolding tolerate finish repeat
delete_running a =
    let offs = repeat (suc a.power_off_again) powers_off in
    let undeployments = repeat (suc a.undeploy_again) undeploys in
    let deletions = repeat (suc a.deletion_again) deletes_vapp in
    elim (pending_tasks a) [
      | some e ↦ ([], some e)
      | none ↦ elim (tolerate a.power_off) [
        | some e ↦ (offs, some e)
        | none ↦ elim (tolerate a.undeploy) [
          | some e ↦ (offs ++ undeployments, some e)
          | none ↦ (offs ++ (undeployments ++ deletions), finish a.deletion)
        ]
      ]
    ]

-- The part for a vApp that exists.
unfoldable pub delete_existing : Answers → Target → List Request × Option String
unfolding delete_running repeat
delete_existing a v =
    let deletions = repeat (suc a.deletion_again) deletes_vapp in
    elim v.vms [
      | [] ↦ (deletions, finish a.deletion)
      | vm ∷ others ↦ elim others [
        | _ ∷ _ ↦ ([], some "unexpected number of VMs in template")
        | [] ↦ elim a.vm_refresh [
          | some e ↦ (deletions, finish a.deletion)
          | none ↦ delete_running a
        ]
      ]
    ]

-- `deleteInstance`: the requests, and the error.
unfoldable pub delete_instance : Answers → List Request × Option String
unfolding refresh_vapp delete_existing
delete_instance a = elim a.client [
  | some e ↦ ([], some e)
  | none ↦ elim (refresh_vapp a.refreshes) [
    | none ↦ ([], some "error refreshing vapp")
    | some v ↦ if str_eq v.name "" then ([], none) else delete_existing a v
  ]
]

-- What `cleanUpInstanceByName` is answered before it deletes, and which errors are
-- `ErrorEntityNotFound`.
pub record Lookup : Type 0 where
  pub client : Option String
  pub org : Option String
  pub vdc : Option String
  pub vapp : Read String  -- the HREF of the vApp
  pub is_not_found : String → Bool

-- How the reconciler reads the error.
unfoldable pub read_error : (String → Bool) → Option String → Read (Unit {0})
read_error is_not_found none = found tt
read_error is_not_found (some e) = if is_not_found e then gone else failed

-- The part of `cleanUpInstanceByName` once the vApp has been looked up.
unfoldable pub delete_looked_up :
    (String → Bool) → (String → Answers) → Read String → List Request × Read (Unit {0})
unfolding read_error
delete_looked_up is_not_found a (found href) =
    let (requests, error) = delete_instance (a href) in (requests, read_error is_not_found error)
delete_looked_up is_not_found a gone = ([], gone)
delete_looked_up is_not_found a failed = ([], failed)

-- `cleanUpInstanceByName`, with what `deleteInstance` is answered for an HREF: the requests, and
-- whether it ended with no error, with `ErrorEntityNotFound` or with another error.
unfoldable pub clean_up_instance_by_name :
    Lookup → (String → Answers) → List Request × Read (Unit {0})
unfolding delete_looked_up
clean_up_instance_by_name l a = elim l.client [
  | some e ↦ ([], read_error l.is_not_found (some e))
  | none ↦ elim l.org [
    | some e ↦ ([], read_error l.is_not_found (some e))
    | none ↦ elim l.vdc [
      | some e ↦ ([], read_error l.is_not_found (some e))
      | none ↦ delete_looked_up l.is_not_found a l.vapp
    ]
  ]
]
