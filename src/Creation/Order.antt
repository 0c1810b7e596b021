-- ===== src/Creation/Order.antt =====
-- vcd.go and vcd_create.go: the order of the requests that `createInstance` makes.
use fleeting_plugin_vcd.Creation.Reads.{
  Adds-present, scripts_of, either_script, Gives-present, Adds-get_storage_profile,
  Adds-get_vapp_template, Adds-get_default_compute_policy, Adds-create_raw_vapp,
  Adds-wait_for_vm_creation,
}
use fleeting_plugin_vcd.Base.{
  ◌≡◌, refl, if◌then◌else◌, String, str_eq, Bool, true, false, Option, none, some, List, [], ◌∷◌,
  ◌++◌, inl, inr, Bool-cases, eq_iff, Among,
}
use fleeting_plugin_vcd.Config.{ℤ, Plugin}
use fleeting_plugin_vcd.Creation.Parts.{
  disk_size_mb, get_vm_network_connection_section, customization_script, inject_credentials,
  change_vm_tpm, change_disk, change_disk_size, dial_unless, wait_for_ssh_readiness,
}
use fleeting_plugin_vcd.Creation.Run.{
  vapp_description, look_up, create_vapp, add_vm_with, add_vm, add_tpm, address_or_raise,
  configure_vm, start_vm, build,
}
use fleeting_plugin_vcd.Vcd.{
  Request, composes_vapp, adds_metadata, adds_network, edits_tpm, changes_cpu, changes_memory,
  updates_disk, powers_on, Env, Script,
}
use fleeting_plugin_vcd.Vcd.Plans.{
  Step, once, repeated, maybe, a_vm, a_customization, Adds, is_change,
}
use fleeting_plugin_vcd.Vcd.Rules.{
  Adds-pure, Adds-raise, Adds-see, Adds-if, Adds-optional, Adds-skip, Adds-bind, Adds-bind_read,
  Adds-bind_pure, Adds-bind_raise, Adds-raise_some, Adds-raise_if, Adds-note, attempt_change,
  Adds-ask, ask_change, ask_once_change, Adds-wait_task, reads_only, Gives, Gives-pure, Gives-bind,
  Gives-any, Adds-bind_given,
}

module _ (env : Env) where
  module _ (g : Plugin) where
    abbrev pub vapp_plan : String → List Step
    vapp_plan name =
        once (composes_vapp name (vapp_description g))
        ∷ repeated (adds_metadata "vcd-instance-group" g.instance_group_name)
        ∷ once (adds_network g.network)
        ∷ []

    Adds-create_vapp : (name : String) → Adds (vapp_plan name) (create_vapp env g name)
    unfolding create_vapp
    Adds-create_vapp name = Adds-bind _ _ (Adds-create_raw_vapp env name _) (λ _.
        Adds-bind _ _ (ask_change env (repeated _) _ refl refl refl)
          (λ _. Adds-bind _ _ (ask_once_change env (once _) _ refl refl) (λ _. Adds-wait_task env)))

    pub Adds-look_up : Adds [] (look_up env g)
    unfolding look_up
    Adds-look_up = search (reads_only, Adds-get_vapp_template, Adds-get_storage_profile) depth 20

    abbrev pub vm_plan : String → List Step
    vm_plan name = a_vm name g.ip_allocation_mode g.network ∷ []

    Adds-add_vm_with :
        (name mode : String)
        → g.ip_allocation_mode ≡ mode
        → Adds (vm_plan name) (add_vm_with env g name mode)
    unfolding add_vm_with
    Adds-add_vm_with name mode e =
        Adds-bind_read _ _ (Adds-optional _ (Adds-get_default_compute_policy env)) (λ policy.
          Adds-bind _ _
            (ask_once_change env (a_vm name g.ip_allocation_mode g.network) _ refl
              (policy, rw e refl))
            (λ _. search (reads_only, Adds-wait_for_vm_creation) depth 20))

    Adds-add_vm : (name : String) → Adds (vm_plan name) (add_vm env g name)
    unfolding add_vm get_vm_network_connection_section
    Adds-add_vm name = elim (Bool-cases (str_eq g.ip_allocation_mode "DHCP")) [
      | inl dhcp ↦ rw dhcp (
          Adds-bind_pure "DHCP" _
            (Adds-add_vm_with name "DHCP" ((eq_iff g.ip_allocation_mode "DHCP").0 dhcp)))
      | inr other ↦ elim (Bool-cases (str_eq g.ip_allocation_mode "POOL")) [
        | inl pool ↦
            rw (other, pool)
              (Adds-bind_pure "POOL" _
                (Adds-add_vm_with name "POOL" ((eq_iff g.ip_allocation_mode "POOL").0 pool)))
        | inr neither ↦ rw (other, neither) (Adds-bind_raise _ _)
      ]
    ]

    -- The credentials that `injectCredentials` may set.
    abbrev pub given_password : Option String
    given_password = if str_eq g.password "" then none else some g.password

    abbrev pub given_scripts : List (Option Script)
    given_scripts = scripts_of env g.key

    abbrev pub customization_step : Step
    customization_step = a_customization given_password given_scripts

    Adds-customization_script : (key : Option String) → Adds [] (customization_script env key)
    unfolding customization_script
    Adds-customization_script none = Adds-pure none
    Adds-customization_script (some key) = search (reads_only, Adds-present) depth 20

    Gives-customization_script :
        (key : Option String)
        → Gives (λ script. Among script (scripts_of env key)) (customization_script env key)
    unfolding customization_script
    Gives-customization_script none = Gives-pure none (inl refl)
    Gives-customization_script (some key) = Gives-bind _ _ (Gives-present _) (λ public e.
        Gives-bind _ _ (Gives-any _) (λ vm _. Gives-bind _ _ (Gives-any _) (λ spec _.
          Gives-bind _ _ (Gives-any _)
            (λ _ _. Gives-pure _ (rw (e, scripts_of) (either_script _ public))))))

    Adds-inject_credentials : Adds (customization_step ∷ []) (inject_credentials env g)
    unfolding inject_credentials
    Adds-inject_credentials = Adds-if _ _ _ (Adds-raise _) (
        Adds-bind_read _ _ (Adds-see _) (λ vm. Adds-bind_read _ _ (Adds-raise_if _ _) (λ _.
          Adds-bind_given _ _ (Adds-customization_script g.key) (Gives-customization_script g.key)
            (λ script among. ask_change env customization_step _ refl refl (script, refl, among)))))

    Adds-add_tpm : Adds (maybe (edits_tpm true) ∷ []) (add_tpm env g)
    unfolding add_tpm change_vm_tpm
    Adds-add_tpm = Adds-bind_read _ _ (Adds-see _) (λ vm.
        Adds-bind_read _ _ (Adds-present vm.spec) (λ spec.
          Adds-if _ _ _
            (Adds-bind _ _
              (Adds-bind _ _ (attempt_change env (maybe (edits_tpm true)) _ refl refl refl)
                (λ e. Adds-raise_if _ _))
              (λ _. Adds-wait_task env))
            (Adds-skip _ _ refl (Adds-pure tt))))

    abbrev pub disk_step : Step
    disk_step = maybe (updates_disk (disk_size_mb g.disk_size_gb))

    Adds-change_disk :
        (wanted : ℤ) (disks : List ℤ)
        → Adds (maybe (updates_disk wanted) ∷ []) (change_disk env wanted disks)
    unfolding change_disk
    Adds-change_disk wanted [] = Adds-raise _
    Adds-change_disk wanted (size ∷ disks) = Adds-if _ _ _ (Adds-skip _ _ refl (Adds-pure tt)) (
        Adds-bind _ _ (ask_change env (maybe (updates_disk wanted)) _ refl refl refl)
          (λ _. Adds-ask env _ refl))

    Adds-change_disk_size : Adds (disk_step ∷ []) (change_disk_size env g)
    unfolding change_disk_size
    Adds-change_disk_size =
        Adds-bind_read _ _ (Adds-see _)
          (λ vm. Adds-bind_read _ _ (Adds-present vm.spec) (λ spec. Adds-change_disk _ spec.disks))

    abbrev pub configure_plan : List Step
    configure_plan =
        customization_step
        ∷ maybe (edits_tpm true)
        ∷ repeated (changes_cpu g.cpu_count g.cores_per_socket)
        ∷ repeated (changes_memory g.memory_mb)
        ∷ disk_step
        ∷ []

    Adds-configure_vm : Adds configure_plan (configure_vm env g)
    unfolding configure_vm
    Adds-configure_vm = Adds-bind _ _ Adds-inject_credentials (λ _. Adds-bind _ _ Adds-add_tpm (λ _.
        Adds-bind_read _ _ (Adds-ask env _ refl) (λ _.
          Adds-bind _ _ (ask_change env (repeated _) _ refl refl refl) (λ _.
            Adds-bind _ _ (ask_change env (repeated _) _ refl refl refl)
              (λ _. Adds-bind _ _ Adds-change_disk_size (λ _. Adds-ask env _ refl))))))

    Adds-dial_unless :
        (skip : Bool) (r : Request) → is_change r ≡ false → Adds [] (dial_unless env skip r)
    unfolding dial_unless
    Adds-dial_unless skip r h = Adds-if _ _ _ (Adds-pure tt) (
        Adds-bind_read _ _ (Adds-see _)
          (λ l. Adds-bind_read _ _ (Adds-note r h) (λ _. Adds-raise_some _)))

    Adds-wait_for_ssh_readiness : (ip : String) → Adds [] (wait_for_ssh_readiness env g ip)
    unfolding wait_for_ssh_readiness
    Adds-wait_for_ssh_readiness ip =
        Adds-bind_read _ _ (Adds-raise_some _) (λ _. Adds-dial_unless _ _ refl)

    Adds-address : (o : Option String) → Adds [] (address_or_raise o)
    unfolding address_or_raise
    Adds-address none = Adds-raise _
    Adds-address (some ip) = Adds-pure ip

    Adds-start_vm : Adds (repeated powers_on ∷ []) (start_vm env g)
    unfolding start_vm
    Adds-start_vm = Adds-bind_read _ _ (Adds-see _) (λ vm.
        Adds-bind_read _ _ (Adds-address _) (λ ip.
          Adds-bind _ _ (ask_change env (repeated powers_on) _ refl refl refl)
            (λ _. search (reads_only, Adds-wait_for_ssh_readiness) depth 20)))

    -- What `createInstance` changes in vCD, in order.
    abbrev pub create_plan : String → List Step
    create_plan name = vapp_plan name ++ vm_plan name ++ configure_plan ++ repeated powers_on ∷ []

    pub Adds-build : (name : String) → Adds (create_plan name) (build env g name)
    unfolding build
    Adds-build name = Adds-bind _ _ (Adds-create_vapp name) (λ _.
        Adds-bind _ _ (Adds-add_vm name) (λ _.
          Adds-bind _ _ Adds-configure_vm
            (λ _. Adds-bind _ _ Adds-start_vm (λ ip. search reads_only depth 20))))
