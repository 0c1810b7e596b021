-- ===== src/Waits/Ends.antt =====
-- vcd_create.go and vcd.go: what the ends of these loops say.
use fleeting_plugin_vcd.Base.{
  ◌≡◌, refl, ◌≢◌, ◌⊎◌, ◌↔◌, inl, inr, str_eq, eq_iff, true, false, not, ◌&&◌, none, some, List, [],
  ◌∷◌, arith, Among, Bool-cases,
}
use fleeting_plugin_vcd.Waits.{
  Round, is_running_status, succeeds, wait_task_completion, NetworkConnection, first_address,
  get_primary_ip_address,
}

-- Rounds that read a running task, then one that read its success.
abbrev pub IsSuccess : List Round → Type 0
IsSuccess [] = ⊥
IsSuccess (r ∷ rest) =
    (r.refresh ≡ none)
    × ((r.status ≡ "success")
        ⊎ ((is_running_status r.status ≡ true) × (r.pause ≡ none) × IsSuccess rest))

-- `waitTaskCompletion` succeeds exactly if vCD reports the status success after rounds, none of them
-- failed or cut off, in which the task was queued, pre-running or running.
pub wait_task_completion-IsSuccess :
    (rounds : List Round) → (wait_task_completion rounds ≡ some succeeds) ↔ IsSuccess rounds
unfolding wait_task_completion
wait_task_completion-IsSuccess [] = (λ h. ground (arith, h), λ h. absurd h)
wait_task_completion-IsSuccess (r ∷ rest) =
    let (there, back) = wait_task_completion-IsSuccess rest in
    (
      λ h. ground (arith, h, there, eq_iff r.status "success"),
      λ h. ground (
        arith,
        h,
        back,
        eq_iff r.status "success",
        eq_iff r.status "queued",
        eq_iff r.status "preRunning",
        eq_iff r.status "running",
        eq_iff "success" "queued",
        eq_iff "success" "preRunning",
        eq_iff "success" "running",
      ),
    )

abbrev pub HasNone : List NetworkConnection → Type 0
HasNone [] = Unit
HasNone (n ∷ ns) = ((n.is_connected ≡ false) ⊎ (n.ip_address ≡ "")) × HasNone ns

-- `getPrimaryIPAddress` gives an address only of a network that is connected and has one, and fails
-- only if the section is missing or no network is connected and has an address.
pub get_primary_ip_address-exact :
    (networks : List NetworkConnection)
    → ((n : NetworkConnection) × Among n networks
        × (get_primary_ip_address (some networks) ≡ some n.ip_address)
        × (n.is_connected ≡ true)
        × (n.ip_address ≢ ""))
      ⊎ ((get_primary_ip_address (some networks) ≡ none) × HasNone networks)
unfolding get_primary_ip_address first_address
get_primary_ip_address-exact [] = inr (refl, tt)
get_primary_ip_address-exact (n ∷ ns) =
    elim (Bool-cases (n.is_connected && not (str_eq n.ip_address ""))) [
      | inl usable ↦ rw usable (
          inl (
            n,
            inl refl,
            refl,
            ground (arith, usable),
            (λ e. ground (arith, usable, eq_iff n.ip_address "")),
          ))
      | inr unusable ↦ rw unusable (elim (get_primary_ip_address-exact ns) [
        | inl (x, among, e, connected, given) ↦ inl (x, inr among, e, connected, given)
        | inr (missing, rest) ↦
            inr (missing, (ground (arith, unusable, eq_iff n.ip_address ""), rest))
      ])
    ]
