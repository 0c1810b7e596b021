-- ===== src/Creation/Reads.antt =====
-- vcd.go and vcd_create.go: the requests of what `createInstance` calls that only reads, and of
-- `createRawVApp`.
use fleeting_plugin_vcd.Base.{
  ◌≡◌, refl, if◌then◌else◌, String, Bool, true, false, Option, none, some, List, [], ◌∷◌, inl, inr,
  Among,
}
use fleeting_plugin_vcd.Creation.Parts.{
  panics, present, get_storage_profile, get_vapp_template, get_default_compute_policy,
  recover_create, wait_tasks, create_raw_vapp, wait_for_vm_creation,
}
use fleeting_plugin_vcd.Vcd.{composes_vapp, Env, Script, linux_script, windows_script}
use fleeting_plugin_vcd.Vcd.Plans.{once, Adds}
use fleeting_plugin_vcd.Vcd.Rules.{
  Adds-pure, Adds-raise, Adds-bind, Adds-bind_read, attempt_once_change, Adds-wait_task, reads_only,
  Gives, Gives-pure, Gives-raise,
}

pub Adds-present : {A : Type 0} (o : Option A) → Adds [] (present o)
unfolding present
Adds-present none = Adds-raise panics
Adds-present (some a) = Adds-pure a

-- What `customizationScript` may be: for a key that can be read, either script.
abbrev pub scripts_of : Env → Option String → List (Option Script)
scripts_of env none = none ∷ []
scripts_of env (some key) = elim (env.public_key key) [
  | none ↦ []
  | some public ↦ some (windows_script public) ∷ some (linux_script public) ∷ []
]

pub either_script :
    (windows : Bool) (key : String)
    → Among
        (some (if windows then windows_script key else linux_script key))
        (some (windows_script key) ∷ some (linux_script key) ∷ [])
either_script true key = inl refl
either_script false key = inr (inl refl)

pub Gives-present : {A : Type 0} (o : Option A) → Gives (λ a. o ≡ some a) (present o)
unfolding present
Gives-present none = Gives-raise panics
Gives-present (some a) = Gives-pure a refl

module _ (env : Env) where
  pub Adds-get_storage_profile : Adds [] (get_storage_profile env)
  unfolding get_storage_profile
  Adds-get_storage_profile = search reads_only depth 20

  pub Adds-get_vapp_template : Adds [] (get_vapp_template env)
  unfolding get_vapp_template
  Adds-get_vapp_template = search reads_only depth 20

  pub Adds-get_default_compute_policy : Adds [] (get_default_compute_policy env)
  unfolding get_default_compute_policy
  Adds-get_default_compute_policy = search (reads_only, Adds-present) depth 20

  Adds-recover_create : (e : Option String) → Adds [] (recover_create env e)
  unfolding recover_create
  Adds-recover_create none = Adds-pure tt
  Adds-recover_create (some e) = search reads_only depth 20

  Adds-wait_tasks : (tasks : List Bool) → Adds [] (wait_tasks env tasks)
  unfolding wait_tasks
  Adds-wait_tasks [] = Adds-pure tt
  Adds-wait_tasks (true ∷ tasks) =
      Adds-bind_read _ _ (Adds-wait_task env) (λ _. Adds-wait_tasks tasks)
  Adds-wait_tasks (false ∷ tasks) = Adds-wait_tasks tasks

  pub Adds-create_raw_vapp :
      (name description : String)
      → Adds (once (composes_vapp name description) ∷ []) (create_raw_vapp env name description)
  unfolding create_raw_vapp
  Adds-create_raw_vapp name description =
      Adds-bind _ _ (attempt_once_change env (once (composes_vapp name description)) _ refl refl)
        (λ e. search (reads_only, Adds-recover_create, Adds-wait_tasks) depth 20)

  pub Adds-wait_for_vm_creation : Adds [] (wait_for_vm_creation env)
  unfolding wait_for_vm_creation
  Adds-wait_for_vm_creation = search reads_only depth 20
