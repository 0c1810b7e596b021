-- ===== src/Store/Ops.antt =====
-- store.go: the methods that change the store, but for pruning and garbage collection.
use fleeting_plugin_vcd.Base.{
  ℕ, ◌+◌, String, leb, ◌==◌, if◌then◌else◌, Bool, true, false, ◌||◌, none, some, List, [], ◌∷◌,
  str_eq, lookup, put, del, values,
}
use fleeting_plugin_vcd.Instance.{
  pending_create, creating, running, pending_delete, deleted, phase_eq, Instance, zero_instance,
}
use fleeting_plugin_vcd.Store.{Store, write, assign, alloc, find_locked}
use Prim.Native.Nat.{◌*◌}

-- Durations are in nanoseconds.
abbrev pub second : ℕ
second = 1_000_000_000

abbrev pub minute : ℕ
minute = 60 * second

abbrev pub missed_polls_before_disappeared : ℕ
missed_polls_before_disappeared = 3

-- `AddCreateIntent`
unfoldable pub add_create_intent : String → ℕ → Store → Store
add_create_intent intent_id now s =
    let inst : Instance = record zero_instance {
      intent_id = intent_id;
      phase = pending_create;
      created_at = some now;
    } in
    record (alloc s inst) { instances = put intent_id s.next s.instances }

-- The body of `MarkForDeletion` once the instance is found.
unfoldable pub request_delete : ℕ → Instance → Instance
request_delete now i =
    if phase_eq i.phase running
    then record i {
      phase = pending_delete;
      delete_requested_at = some now;
      last_updated = some now;
    }
    else i

-- `MarkForDeletion`
unfoldable pub mark_for_deletion : String → ℕ → Store → Store
mark_for_deletion id now s = elim (find_locked s id) [
  | none ↦ s
  | some p ↦ assign s p (request_delete now (s.cell p))
]

-- The end of `UpdateInstance`: the HREF index learns the instance behind `p`, and another
-- instance under the same HREF leaves the primary map.
unfoldable pub link : ℕ → Store → Store
link p s =
    let href = (s.cell p).id in
    let indexed = record s { by_vapp_href = put href p s.by_vapp_href } in
    if str_eq href "" then s else elim (lookup href s.by_vapp_href) [
      | none ↦ indexed
      | some e ↦
          if e == p
          then indexed
          else record indexed { instances = del (s.cell e).intent_id s.instances }
    ]

-- `UpdateInstance`
unfoldable pub update_instance : String → (Instance → Instance) → ℕ → Store → Store
unfolding link
update_instance intent_id fn now s = elim (lookup intent_id s.instances) [
  | none ↦ s
  | some p ↦ link p (assign s p (record (fn (s.cell p)) { last_updated = some now }))
]

-- What a poll observes of one vApp.
pub record Observation : Type 0 where
  pub vapp_name : String
  pub vm_name : String
  pub ip_address : String
  pub vapp_status : String
  pub vm_status : String
  pub os_type : String

-- `AddPreexisting`
unfoldable pub add_preexisting : String → Observation → ℕ → Store → Store
add_preexisting href o now s = elim (lookup href s.by_vapp_href) [
  | some _ ↦ s
  | none ↦
      let inst : Instance = record zero_instance {
        id = href;
        intent_id = href;
        name = o.vapp_name;
        vm_name = o.vm_name;
        phase = running;
        ip_address = o.ip_address;
        vapp_status = o.vapp_status;
        vm_status = o.vm_status;
        os_type = o.os_type;
        last_updated = some now;
      } in
      record (alloc s inst) {
        instances = put href s.next s.instances;
        by_vapp_href = put href s.next s.by_vapp_href;
      }
]

-- `AddLeftover`: the store and whether the vApp was added.
unfoldable pub add_leftover : String → String → ℕ → Store → Store × Bool
add_leftover href vapp_name now s = elim (lookup href s.by_vapp_href) [
  | some _ ↦ (s, false)
  | none ↦
      let inst : Instance = record zero_instance {
        id = href;
        intent_id = href;
        name = vapp_name;
        phase = pending_delete;
        leftover = true;
        delete_requested_at = some now;
        last_updated = some now;
      } in
      (
        record (alloc s inst) {
          instances = put href s.next s.instances;
          by_vapp_href = put href s.next s.by_vapp_href;
        },
        true,
      )
]

-- The body of `UpdateFromVCD` once the instance is found.
unfoldable pub observe : Observation → ℕ → Instance → Instance
observe o now i = record i {
  name = o.vapp_name;
  vm_name = o.vm_name;
  ip_address = o.ip_address;
  vapp_status = o.vapp_status;
  vm_status = o.vm_status;
  os_type = o.os_type;
  missed_polls = 0;
  last_updated = some now;
}

-- `UpdateFromVCD`: the store and whether the vApp is tracked.
unfoldable pub update_from_vcd : String → Observation → ℕ → Store → Store × Bool
update_from_vcd href o now s = elim (lookup href s.by_vapp_href) [
  | none ↦ (s, false)
  | some p ↦ (assign s p (observe o now (s.cell p)), true)
]

-- A Go `map[string]bool` that is only ever set to true: the keys that it holds.
unfoldable pub contains : String → List String → Bool
contains k [] = false
contains k (x ∷ xs) = str_eq x k || contains k xs

-- One round of the loop of `MarkDisappeared`.
unfoldable pub miss : List String → ℕ → Instance → Instance
miss known now i =
    if str_eq i.id ""
    then i
    else if phase_eq i.phase deleted
    then i
    else if phase_eq i.phase pending_create || phase_eq i.phase creating
    then i
    else if contains i.id known
    then i
    else if leb missed_polls_before_disappeared (i.missed_polls + 1)
    then record i {
      missed_polls = i.missed_polls + 1;
      phase = deleted;
      delete_completed_at = some now;
      last_updated = some now;
    }
    else record i { missed_polls = i.missed_polls + 1 }

-- A loop that updates the instance behind each pointer in turn.
unfoldable pub update_each : (Instance → Instance) → List ℕ → (ℕ → Instance) → ℕ → Instance
update_each f [] c = c
update_each f (p ∷ ps) c = update_each f ps (write c p (f (c p)))

-- `MarkDisappeared`
unfoldable pub mark_disappeared : List String → ℕ → Store → Store
mark_disappeared known now s = record s {
  cell = update_each (miss known now) (values s.instances) s.cell;
}
