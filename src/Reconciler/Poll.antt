-- ===== src/Reconciler/Poll.antt =====
-- reconciler.go, `pollVCD`, and vcd.go, `readListedVApps` and `ownsVApp`: how a poll of vCD changes
-- the store. What vCD answers is an argument: the listing, and the result of each VM read.
pub mod Steps
pub mod Listing
pub mod Queued
pub mod Unread
pub mod Leftovers
use fleeting_plugin_vcd.Base.{
  ℕ, ◌==◌, if◌then◌else◌, String, Bool, true, false, not, ◌||◌, Option, none, some, List, [], ◌∷◌,
  ◌++◌, map, lookup, length,
}
use fleeting_plugin_vcd.Instance.{Instance}
use fleeting_plugin_vcd.Store.{Store, get_by_vapp_href}
use fleeting_plugin_vcd.Store.Ops.{
  Observation, contains, add_leftover, update_from_vcd, mark_disappeared,
}
use fleeting_plugin_vcd.Store.Query.{size}

-- How a read of an entity ends: `isEntityNotFoundError` tells `gone` from other failures.
pub data Read {ℓ} (A : Type ℓ) : Type ℓ where
  found : A → Read A
  gone : Read A
  failed : Read A

pub record VmRef : Type 0 where
  pub href : String
  pub name : String
  pub status : String

-- A vApp that was listed and read; `vms` is empty where vCD gives no children.
pub record VApp : Type 0 where
  pub href : String
  pub name : String
  pub status : String
  pub vms : List VmRef

-- `listedVApp`
pub record ListedVApp : Type 0 where
  pub href : String
  pub name : String

-- `readListedVApps`: the first failure other than `gone` stops the reads, and every vApp from
-- there on is unread.
unfoldable pub read_listed_vapps : (String → Read VApp) → List ListedVApp → List VApp × List String
read_listed_vapps read [] = ([], [])
read_listed_vapps read (item ∷ rest) =
    let (vapps, unread) = read_listed_vapps read rest in
    elim (read item.href) [
      | found v ↦ (v ∷ vapps, unread)
      | gone ↦ (vapps, unread)
      | failed ↦ ([], item.href ∷ map (λ l. l.href) rest)
    ]

-- `vmPollResult`; a nil result with a nil error is the same to the poll as a failure.
pub record VmPollResult : Type 0 where
  pub ip : String
  pub os_type : String

-- What the poll asks of the rest of the program: `ownsVApp` and `pollVM`.
pub record PollOps : Type 0 where
  pub owns_vapp : String → Bool
  pub poll_vm : String → Read VmPollResult

-- `ownsVApp` of the `InstanceGroup`.
unfoldable pub owns_vapp : List String → List (String × ℕ) → String → Bool
owns_vapp inflight cleanups name =
    if contains name inflight
    then true
    else elim (lookup name cleanups) [ none ↦ false | some _ ↦ true ]

-- The local variables of the loop.
pub record Progress : Type 0 where
  pub store : Store
  pub skip_vm_reads : Bool

-- What the poll stores of a vApp whose VM is not read.
abbrev pub bare : VApp → Observation
bare v = record {
  vapp_name = v.name;
  vm_name = "";
  ip_address = "";
  vapp_status = v.status;
  vm_status = "";
  os_type = "";
}

-- The read of the VM of a tracked vApp.
unfoldable pub poll_vm_of : PollOps → ℕ → VApp → VmRef → Progress → Progress
poll_vm_of ops now v vm s = if s.skip_vm_reads then s else elim (ops.poll_vm vm.href) [
  | failed ↦ record s { skip_vm_reads = true }
  | gone ↦ s
  | found r ↦ record s {
    store =
        (update_from_vcd v.href
          (record {
            vapp_name = v.name;
            vm_name = vm.name;
            ip_address = r.ip;
            vapp_status = v.status;
            vm_status = vm.status;
            os_type = r.os_type;
          })
          now s.store).0;
  }
]

-- A vApp that the store tracks as `inst`.
unfoldable pub poll_tracked : PollOps → ℕ → VApp → Instance → Progress → Progress
unfolding poll_vm_of
poll_tracked ops now v inst s =
    let unread = record s { store = (update_from_vcd v.href (bare v) now s.store).0 } in
    if inst.leftover
    then unread
    else elim v.vms [ [] ↦ unread | vm ∷ _ ↦ poll_vm_of ops now v vm s ]

-- One round of the loop over the vApps.
unfoldable pub poll_vapp : PollOps → ℕ → VApp → Progress → Progress
poll_vapp ops now v s = elim (get_by_vapp_href s.store v.href) [
  | none ↦
      if ops.owns_vapp v.name
      then s
      else record s { store = (add_leftover v.href v.name now s.store).0 }
  | some inst ↦ poll_tracked ops now v inst s
]

unfoldable pub poll_vapps : PollOps → ℕ → List VApp → Progress → Progress
poll_vapps ops now [] s = s
poll_vapps ops now (v ∷ vs) s = poll_vapps ops now vs (poll_vapp ops now v s)

pub data PollError : Type 0 where
  listing_failed : PollError
  incomplete_poll : ℕ → PollError

-- `knownHREFs`
abbrev pub known_hrefs : List VApp → List String → List String
known_hrefs vapps unread = unread ++ map (λ v. v.href) vapps

abbrev pub is_empty {ℓ} : {A : Type ℓ} → List A → Bool
is_empty [] = true
is_empty (x ∷ xs) = false

-- The end of `pollVCD`: an empty listing of a store with instances is not believed.
unfoldable pub count_missing : List String → ℕ → Store → Store
count_missing known now s =
    if not (is_empty known) || size s == 0 then mark_disappeared known now s else s

-- `pollVCD`: the listing is `none` where it failed.
unfoldable pub poll_vcd :
    PollOps → ℕ → Option (List VApp × List String) → Store → Store × Option PollError
unfolding count_missing
poll_vcd ops now none s = (s, some listing_failed)
poll_vcd ops now (some (vapps, unread)) s =
    let seen = (poll_vapps ops now vapps (record { store = s; skip_vm_reads = false })).store in
    (
      count_missing (known_hrefs vapps unread) now seen,
      if is_empty unread then none else some (incomplete_poll (length unread)),
    )
