-- ===== src/Deletion/Outcomes.antt =====
-- vcd.go, `deleteInstance`: what its result says.
use fleeting_plugin_vcd.Base.{
  ℕ, zero, suc, Option, Among, sym, ap, ◌++◌, String, ◌≤◌, ◌≡◌, refl, ◌≢◌, ◌⊎◌, inl, inr, str_eq,
  eq_iff, none, some, List, [], ◌∷◌, false, arith, Option-cases, Bool-cases,
}
use mathlib.Core.List.{append-nil}
use fleeting_plugin_vcd.Deletion.{
  Target, TaskCall, rejected, started, Answers, Request, powers_off, undeploys, deletes_vapp,
  TaskRound, has_running_tasks, wait_for_tasks_completion, refresh_vapp, finish, delete_running,
  delete_existing, delete_instance, repeat, tolerate, pending_tasks,
}

-- The deletion was accepted and its task succeeded.
finish-started : (c : TaskCall) → finish c ≡ none → c ≡ started none
unfolding finish
finish-started (rejected e) h = absurd (ground (arith, h))
finish-started (started none) h = refl
finish-started (started (some e)) h = absurd (ground (arith, h))

-- Power-offs, then undeployments, then deletions, each from one call of `safeVCDCall` at most.
abbrev pub AreInOrder : Answers → List Request → Type 0
AreInOrder a rs =
    (p u d : ℕ) × (rs ≡ repeat p powers_off ++ (repeat u undeploys ++ repeat d deletes_vapp))
    × (p ≤ suc a.power_off_again)
    × (u ≤ suc a.undeploy_again)
    × (d ≤ suc a.deletion_again)

-- The deletion was sent and accepted, and its task succeeded.
abbrev pub IsAccepted : Answers → List Request → Type 0
IsAccepted a rs = Among deletes_vapp rs × (a.deletion ≡ started none)

Among-repeat : (x y : Request) (n : ℕ) (rs : List Request) → Among x rs → Among x (repeat n y ++ rs)
unfolding repeat
Among-repeat x y zero rs h = h
Among-repeat x y (suc n) rs h = inr (Among-repeat x y n rs h)

-- What `delete_existing` may end with.
abbrev Ends : Answers → List Request × Option String → Type 0
Ends a (rs, e) = AreInOrder a rs × ((e ≢ none) ⊎ IsAccepted a rs)

finish-Ends :
    (a : Answers) (rs : List Request)
    → AreInOrder a rs
    → Among deletes_vapp rs
    → Ends a (rs, finish a.deletion)
finish-Ends a rs ordered sent = elim (Option-cases (finish a.deletion)) [
  | inl ok ↦ (ordered, inr (sent, finish-started a.deletion ok))
  | inr (e, bad) ↦ (ordered, inl (λ h. ground (arith, bad, h)))
]

only_deletions :
    (a : Answers) → Ends a (repeat (suc a.deletion_again) deletes_vapp, finish a.deletion)
unfolding repeat
only_deletions a =
    finish-Ends a _ (0, 0, suc a.deletion_again, refl, omega arith, omega arith, omega arith)
      (inl refl)

undeployed_only :
    (a : Answers)
    → repeat (suc a.power_off_again) powers_off ++ repeat (suc a.undeploy_again) undeploys
      ≡ repeat (suc a.power_off_again) powers_off ++ (repeat (suc a.undeploy_again) undeploys ++ [])
undeployed_only a = ap (λ l. repeat (suc a.power_off_again) powers_off ++ l) (sym (append-nil _))

-- An end with an error, whatever was sent.
bad_end : (a : Answers) (rs : List Request) (e : String) → AreInOrder a rs → Ends a (rs, some e)
bad_end a rs e ordered = (ordered, inl (λ h. ground (arith, h)))

nothing_sent : (a : Answers) → AreInOrder a []
unfolding repeat
nothing_sent a = (0, 0, 0, refl, omega arith, omega arith, omega arith)

delete_running-Ends : (a : Answers) → Ends a (delete_running a)
unfolding delete_running repeat
delete_running-Ends a = elim (Option-cases (pending_tasks a)) [
  | inr (e, waits) ↦
      let reached : delete_running a ≡ ([], some e) = ground (arith, waits) in
      rw reached (bad_end a _ e (nothing_sent a))
  | inl settled ↦ elim (Option-cases (tolerate a.power_off)) [
    | inr (e, fails) ↦
        let reached : delete_running a ≡ (repeat (suc a.power_off_again) powers_off, some e) =
          ground (arith, settled, fails) in
        rw reached (
          bad_end a _ e (
            suc a.power_off_again,
            0,
            0,
            sym (append-nil _),
            omega arith,
            omega arith,
            omega arith,
          ))
    | inl off ↦ elim (Option-cases (tolerate a.undeploy)) [
      | inr (e, fails) ↦
          let reached : delete_running a ≡ (
            repeat (suc a.power_off_again) powers_off ++ repeat (suc a.undeploy_again) undeploys,
            some e,
          ) =
            ground (arith, settled, off, fails) in
          rw reached (
            bad_end a _ e (
              suc a.power_off_again,
              suc a.undeploy_again,
              0,
              undeployed_only a,
              omega arith,
              omega arith,
              omega arith,
            ))
      | inl undeployed ↦
          let sent =
            repeat (suc a.power_off_again) powers_off
            ++ (repeat (suc a.undeploy_again) undeploys
                ++ repeat (suc a.deletion_again) deletes_vapp) in
          let reached : delete_running a ≡ (sent, finish a.deletion) =
            ground (arith, settled, off, undeployed) in
          rw reached (
            finish-Ends a sent
              (
                suc a.power_off_again,
                suc a.undeploy_again,
                suc a.deletion_again,
                refl,
                omega arith,
                omega arith,
                omega arith,
              )
              (Among-repeat _ _ (suc a.power_off_again) _
                (Among-repeat _ _ (suc a.undeploy_again) _ (inl refl))))
    ]
  ]
]

-- By the HREFs of the VMs.
existing-Ends :
    (a : Answers) (v : Target) (vms : List String) → v.vms ≡ vms → Ends a (delete_existing a v)
unfolding delete_existing
existing-Ends a v [] h =
    let reached : delete_existing a v
        ≡ (repeat (suc a.deletion_again) deletes_vapp, finish a.deletion) =
      ground (arith, h) in
    rw reached (only_deletions a)
existing-Ends a v (vm ∷ other ∷ more) h =
    let reached : delete_existing a v ≡ ([], some "unexpected number of VMs in template") =
      ground (arith, h) in
    rw reached (bad_end a _ _ (nothing_sent a))
existing-Ends a v (vm ∷ []) h = elim (Option-cases a.vm_refresh) [
  | inl read ↦
      let reached : delete_existing a v ≡ delete_running a = ground (arith, h, read) in
      rw reached (delete_running-Ends a)
  | inr (e, fails) ↦
      let reached : delete_existing a v
          ≡ (repeat (suc a.deletion_again) deletes_vapp, finish a.deletion) =
        ground (arith, h, fails) in
      rw reached (only_deletions a)
]

-- `deleteInstance` asks for power-offs, then undeployments, then deletions of the vApp, each from one
-- call of `safeVCDCall` at most, which may send its request again. It returns no error only if
-- a read of the vApp found that it is gone or has no name, and then it asks for nothing, or if the
-- deletion was sent and accepted and its task succeeded.
pub delete_instance-success :
    (a : Answers)
    → AreInOrder a (delete_instance a).0
      × (((delete_instance a).1 ≢ none)
          ⊎ ((v : Target) × (refresh_vapp a.refreshes ≡ some v)
              × (v.name ≡ "")
              × ((delete_instance a).0 ≡ []))
          ⊎ IsAccepted a (delete_instance a).0)
unfolding delete_instance
delete_instance-success a = elim (Option-cases a.client) [
  | inr (e, no_client) ↦
      let reached : delete_instance a ≡ ([], some e) = ground (arith, no_client) in
      rw reached (nothing_sent a, inl (λ h. ground (arith, h)))
  | inl client ↦ elim (Option-cases (refresh_vapp a.refreshes)) [
    | inl unread ↦
        let reached : delete_instance a ≡ ([], some "error refreshing vapp") =
          ground (arith, client, unread) in
        rw reached (nothing_sent a, inl (λ h. ground (arith, h)))
    | inr (v, seen) ↦ elim (Bool-cases (str_eq v.name "")) [
      | inl nameless ↦
          let reached : delete_instance a ≡ ([], none) = ground (arith, client, seen, nameless) in
          rw reached (nothing_sent a, inr (inl (v, seen, (eq_iff v.name "").0 nameless, refl)))
      | inr named ↦
          let reached : delete_instance a ≡ delete_existing a v =
            ground (arith, client, seen, named) in
          let (ordered, end) = existing-Ends a v v.vms refl in
          rw reached (ordered, elim end [ inl bad ↦ inl bad | inr done ↦ inr (inr done) ])
    ]
  ]
]

-- The waits before the power is turned off end well only once no task is running.
abbrev pub AreEnded : List String → Type 0
AreEnded tasks = has_running_tasks tasks ≡ false

-- Rounds, none of them cut off or failed, after which no task of the vApp or the VM is running.
abbrev pub Settles : List String → List String → List TaskRound → Type 0
Settles vapp_tasks vm_tasks [] = AreEnded vapp_tasks × AreEnded vm_tasks
Settles vapp_tasks vm_tasks (r ∷ rest) =
    (AreEnded vapp_tasks × AreEnded vm_tasks)
    ⊎ ((r.context ≡ none)
        × (r.vapp_refresh ≡ none)
        × (r.vm_refresh ≡ none)
        × Settles r.vapp_tasks r.vm_tasks rest)

wait_for_tasks_completion-Settles :
    (vapp_tasks vm_tasks : List String) (rounds : List TaskRound)
    → wait_for_tasks_completion vapp_tasks vm_tasks rounds ≡ none
    → Settles vapp_tasks vm_tasks rounds
unfolding wait_for_tasks_completion
wait_for_tasks_completion-Settles vapp_tasks vm_tasks [] h = ground (arith, h)
wait_for_tasks_completion-Settles vapp_tasks vm_tasks (r ∷ rest) h =
    ground (arith, h, wait_for_tasks_completion-Settles r.vapp_tasks r.vm_tasks rest)
