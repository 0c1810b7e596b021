-- ===== src/Store/Expiry.antt =====
-- store.go: the methods that drop deleted instances and that mark old ones for deletion.
use fleeting_plugin_vcd.Base.{
  ℕ, ◌+◌, ◌*◌, String, ltb, if◌then◌else◌, Bool, false, ◌&&◌, none, some, List, [], ◌∷◌, lookup,
  del,
}
use fleeting_plugin_vcd.Instance.{running, pending_delete, deleted, phase_eq, Instance}
use fleeting_plugin_vcd.Store.{Store, assign}
use fleeting_plugin_vcd.Store.Ops.{minute}

abbrev pub prune_after : ℕ
prune_after = 5 * minute

-- `Prune`'s test: deleted for longer than `pruneAfter`.
unfoldable pub is_stale : ℕ → Instance → Bool
is_stale now i = elim i.delete_completed_at [
  | none ↦ false
  | some t ↦ phase_eq i.phase deleted && ltb (t + prune_after) now
]

-- The loop of `Prune` over the entries of the primary map.
unfoldable pub prune_each : ℕ → List (String × ℕ) → Store → Store
prune_each now [] s = s
prune_each now ((k, p) ∷ entries) s = prune_each now entries (
    if is_stale now (s.cell p)
    then record s { by_vapp_href = del (s.cell p).id s.by_vapp_href; instances = del k s.instances }
    else s)

-- `Prune`
unfoldable pub prune : ℕ → Store → Store
unfolding prune_each
prune now s = prune_each now s.instances s

-- The body of `MarkGC` once the instance is found.
unfoldable pub collect : ℕ → Instance → Instance
collect now i =
    if phase_eq i.phase running
    then record i {
      phase = pending_delete;
      gc_marked_at = some now;
      delete_requested_at = some now;
      last_updated = some now;
    }
    else i

-- `MarkGC`
unfoldable pub mark_gc : String → ℕ → Store → Store
mark_gc intent_id now s = elim (lookup intent_id s.instances) [
  | none ↦ s
  | some p ↦ assign s p (collect now (s.cell p))
]
