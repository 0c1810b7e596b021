-- ===== src/Store/Index/Reach.antt =====
-- store.go: the store over its whole life.
use fleeting_plugin_vcd.Base.{ℕ, ◌≡◌, ◌≢◌, ◌↔◌, String, List, none, some, lookup}
use fleeting_plugin_vcd.Instance.{Instance}
use fleeting_plugin_vcd.Store.{get_by_vapp_href, get_by_intent_id, Store, new_store}
use fleeting_plugin_vcd.Store.Index.{IsWellFormed, new_store-IsWellFormed, lookups_agree}
use fleeting_plugin_vcd.Store.Index.Add.{
  add_create_intent-IsWellFormed, add_preexisting-IsWellFormed, add_leftover-IsWellFormed,
}
use fleeting_plugin_vcd.Store.Index.Keep.{
  mark_for_deletion-IsWellFormed, update_from_vcd-IsWellFormed, mark_gc-IsWellFormed,
  mark_disappeared-IsWellFormed,
}
use fleeting_plugin_vcd.Store.Index.Prune.{prune-IsWellFormed}
use fleeting_plugin_vcd.Store.Index.Update.{KeepsKeys, update_instance-IsWellFormed}
use fleeting_plugin_vcd.Store.Ops.{
  add_create_intent, mark_for_deletion, update_instance, Observation, add_preexisting, add_leftover,
  update_from_vcd, mark_disappeared,
}
use fleeting_plugin_vcd.Store.Expiry.{prune, mark_gc}

-- One call of a method, with what the callers see to: a new intent ID is unused, a vApp that vCD
-- lists has an HREF which, while untracked, is no intent ID, and an update keeps the
-- intent ID and sets an HREF only where there was none.
pub data Method (s : Store) : Store → Type 0 where
  adds_create_intent :
      (id : String) (now : ℕ) → lookup id s.instances ≡ none → Method s (add_create_intent id now s)
  marks_for_deletion : (id : String) (now : ℕ) → Method s (mark_for_deletion id now s)
  updates_instance :
      (id : String) (fn : Instance → Instance) (now : ℕ)
      → ((p : ℕ) → lookup id s.instances ≡ some p → KeepsKeys (fn (s.cell p)) (s.cell p))
      → Method s (update_instance id fn now s)
  adds_preexisting :
      (href : String) (o : Observation) (now : ℕ)
      → href ≢ ""
      → (lookup href s.by_vapp_href ≡ none → lookup href s.instances ≡ none)
      → Method s (add_preexisting href o now s)
  adds_leftover :
      (href name : String) (now : ℕ)
      → href ≢ ""
      → (lookup href s.by_vapp_href ≡ none → lookup href s.instances ≡ none)
      → Method s (add_leftover href name now s).0
  updates_from_vcd :
      (href : String) (o : Observation) (now : ℕ) → Method s (update_from_vcd href o now s).0
  marks_disappeared : (known : List String) (now : ℕ) → Method s (mark_disappeared known now s)
  prunes : (now : ℕ) → Method s (prune now s)
  marks_gc : (id : String) (now : ℕ) → Method s (mark_gc id now s)

pub data Methods (s : Store) : Store → Type 0 where
  idle : Methods s s
  calls : {t u : Store} → Methods s t → Method t u → Methods s u

pub Method-IsWellFormed : {s t : Store} → Method s t → IsWellFormed s → IsWellFormed t
Method-IsWellFormed {s} (adds_create_intent id now new) w =
    add_create_intent-IsWellFormed id now s w new
Method-IsWellFormed {s} (marks_for_deletion id now) w = mark_for_deletion-IsWellFormed id now s w
Method-IsWellFormed {s} (updates_instance id fn now keeps) w =
    update_instance-IsWellFormed id fn now s w keeps
Method-IsWellFormed {s} (adds_preexisting href o now ne new) w =
    add_preexisting-IsWellFormed href o now s w ne new
Method-IsWellFormed {s} (adds_leftover href name now ne new) w =
    add_leftover-IsWellFormed href name now s w ne new
Method-IsWellFormed {s} (updates_from_vcd href o now) w =
    update_from_vcd-IsWellFormed href o now s w
Method-IsWellFormed {s} (marks_disappeared known now) w =
    mark_disappeared-IsWellFormed known now s w
Method-IsWellFormed {s} (prunes now) w = prune-IsWellFormed now s w
Method-IsWellFormed {s} (marks_gc id now) w = mark_gc-IsWellFormed id now s w

-- Whatever methods are called from a new store, in whatever order, where a new intent has an unused
-- ID, a vApp that is added has an HREF that is not empty and, while untracked, is no intent ID, and
-- an update keeps the intent ID and sets an HREF only where there was none: the primary map and the
-- HREF index are well formed and agree on every instance.
pub Methods-IsWellFormed : {s : Store} → Methods new_store s → IsWellFormed s
Methods-IsWellFormed idle = new_store-IsWellFormed
Methods-IsWellFormed (calls cs c) = Method-IsWellFormed c (Methods-IsWellFormed cs)

-- Whatever methods are called from a new store, in whatever order, where a new intent has an unused
-- ID, a vApp that is added has an HREF that is not empty and, while untracked, is no intent ID, and
-- an update keeps the intent ID and sets an HREF only where there was none: the two indexes answer
-- alike, as an instance is found under an HREF that is not empty exactly when it has that HREF and
-- is found under its own intent ID.
pub Methods-lookups_agree :
    {s : Store} (h : String) (i : Instance)
    → Methods new_store s
    → h ≢ ""
    → (get_by_vapp_href s h ≡ some i) ↔ ((i.id ≡ h) × (get_by_intent_id s i.intent_id ≡ some i))
Methods-lookups_agree h i cs ne = lookups_agree _ h i (Methods-IsWellFormed cs) ne
