-- ===== src/Vcd.antt =====
-- The calls of vCD that vcd.go and vcd_create.go make, as actions: a state with what was asked so
-- far and with the maps of names, and a result or an error. How a call ends, how often `safeVCDCall`
-- has sent its request again by then, and what an SDK object holds after calls, which replace its
-- content, are arguments that may depend on everything asked before. An attempt that vCD rejects
-- because of its operation limit starts nothing and is not logged; a call that fails before its
-- first attempt is logged all the same. Logs are left out, and
-- so are the functions that restore an object after a failure.
pub mod Plans
pub mod Rules
use fleeting_plugin_vcd.Base.{
  ℕ, zero, suc, String, Bool, true, false, Option, none, some, List, [], ◌∷◌, ◌++◌,
}
use fleeting_plugin_vcd.Config.{ℤ}
use fleeting_plugin_vcd.Waits.{Round, Look, NetworkConnection, wait_error, wait_task_completion}

-- The guest customization script for a public key.
pub data Script : Type 0 where
  linux_script windows_script : String → Script

-- What `injectCredentials` sets in the guest customization section of a VM.
pub record Customization : Type 0 where
  pub admin_password : Option String
  pub script : Option Script

pub data Request : Type 0 where
  gets_client : Request  -- `getVCDClient`
  reads : String → Request  -- a call that changes nothing, by its description
  waits_task : Request  -- `waitTaskCompletion`
  sleeps : ℕ → Request  -- `sleepContext`
  dials : String → ℕ → String → Request  -- SSH: address, port, user
  composes_vapp : String → String → Request  -- name, description
  adds_metadata : String → String → Request
  adds_network : String → Request
  adds_vm : String → (mode network : String) → (policy : Option String) → Request
  customizes : Customization → Request
  edits_tpm : Bool → Request
  changes_cpu : ℤ → ℤ → Request
  changes_memory : ℤ → Request
  updates_disk : ℤ → Request  -- the size in MB
  powers_on : Request

-- A VM, as far as it is read: `VmSpecSection` and what it has may be missing.
pub record Spec : Type 0 where
  pub os_type : String
  pub disks : List ℤ  -- the sizes of `DiskSettings`, none where `DiskSection` is nil

pub record Vm : Type 0 where
  pub name : String
  pub spec : Option Spec
  pub networks : Option (List NetworkConnection)
  pub has_customization : Bool  -- `GuestCustomizationSection != nil`

pub record VApp : Type 0 where
  pub href : String
  pub name : String
  pub tasks : Option (List Bool)  -- the pointers of `Tasks`, whether they are not nil
  pub vms : List String

-- What is outside, each answer given what was asked before. The lists of rounds go up to the end of
-- the context.
pub record Env : Type 0 where
  pub error : Request → List Request → Option String
  pub again : Request → List Request → ℕ  -- how often `safeVCDCall` sends a request again
  pub vapp : List Request → VApp
  pub vm : List Request → Vm
  pub template_status : List Request → ℕ
  pub default_policy : List Request → Option String
  pub power_status : List Request → String
  pub task_rounds : List Request → List Round
  pub status_looks : List Request → List (Look String)
  pub task_looks : List Request → List (Look Bool)
  pub dials_made : List Request → List (Bool × Option String)
  pub suffix : List Request → Option String  -- `GenerateRandomStringVMNameSafe(8)`
  pub signer : String → Option String  -- the error of `ssh.ParsePrivateKey`
  pub public_key : String → Option String  -- the authorized key of a private key
  pub clock : List Request → ℕ

pub record World : Type 0 where
  pub log : List Request
  pub inflight_creates : List String
  pub failed_create_cleanups : List (String × ℕ)

pub data Result (A : Type 0) : Type 0 where
  ok : A → Result A
  err : String → Result A

abbrev pub Action : Type 0 → Type 0
Action A = World → Result A × World

module _ {A : Type 0} where
  unfoldable pub pure : A → Action A
  pure a w = (ok a, w)

  unfoldable pub raise : String → Action A
  raise e w = (err e, w)

  unfoldable pub see : (List Request → A) → Action A
  see f w = (ok (f w.log), w)

module _ {A B : Type 0} where
  unfoldable pub continue : Result A → (A → Action B) → Action B
  continue (ok a) f w = f a w
  continue (err e) f w = (err e, w)

  infixl 10 ◌>>=◌
  unfoldable pub ◌>>=◌ : Action A → (A → Action B) → Action B
  unfolding pure raise see continue
  ◌>>=◌ m f w = let (r, w') = m w in continue r f w'

infixl 10 ◌>>◌
abbrev pub ◌>>◌ : {B : Type 0} → Action (Unit {0}) → Action B → Action B
m >> n = m >>= λ _. n

-- An error that a loop or a test has, or none.
unfoldable pub raise_some : Option String → Action (Unit {0})
raise_some none w = (ok tt, w)
raise_some (some e) w = (err e, w)

unfoldable pub raise_if : Bool → String → Action (Unit {0})
raise_if true e w = (err e, w)
raise_if false e w = (ok tt, w)

unfoldable pub note : Request → Action (Unit {0})
note r w = (ok tt, record w { log = w.log ++ r ∷ [] })

abbrev pub times : ℕ → Request → List Request
times zero r = []
times (suc n) r = r ∷ times n r

unfoldable pub note_times : ℕ → Request → Action (Unit {0})
note_times n r w = (ok tt, record w { log = w.log ++ times n r })

-- An action whose error the code drops.
unfoldable pub succeeded_with : {A : Type 0} → Result A × World → Result (Option A) × World
succeeded_with (ok a, w) = (ok (some a), w)
succeeded_with (err e, w) = (ok none, w)

unfoldable pub optional : {A : Type 0} → Action A → Action (Option A)
unfolding succeeded_with
optional m w = succeeded_with (m w)

module _ (env : Env) where
  -- A call of `singleVCDCall`, or one that sends nothing: its error.
  unfoldable pub attempt_once : Request → Action (Option String)
  unfolding note
  attempt_once r = do e ← see (env.error r); note r; pure e

  -- A call of `safeVCDCall`, which may send the request again: its error.
  unfoldable pub attempt : Request → Action (Option String)
  unfolding note_times
  attempt r = do e ← see (env.error r); n ← see (env.again r); note_times (suc n) r; pure e

  -- The same where an error ends the action.
  unfoldable pub ask_once : Request → Action (Unit {0})
  unfolding attempt_once raise_some
  ask_once r = do e ← attempt_once r; raise_some e

  unfoldable pub ask : Request → Action (Unit {0})
  unfolding attempt raise_some
  ask r = do e ← attempt r; raise_some e

  -- `waitTaskCompletion` in an action.
  unfoldable pub wait_task : Action (Unit {0})
  unfolding note raise_some
  wait_task = do
    rounds ← see env.task_rounds
    note waits_task
    raise_some (wait_error (wait_task_completion rounds))
