-- ===== src/Debug.antt =====
-- debug.go: the counts of the debug page, and what it says of one instance. The page's other
-- contents are the snapshot of status.go, the time and texts.
pub mod Counts
pub mod View
pub mod Api
use fleeting_plugin_vcd.Base.{
  ℕ, ltb, if◌then◌else◌, String, Option, none, some, List, [], ◌∷◌, length, map,
}
use fleeting_plugin_vcd.Instance.{
  Phase, pending_create, creating, running, pending_delete, deleting, deleted, phase_eq,
  phase_string, Instance,
}
use fleeting_plugin_vcd.Store.{Store, get_all}
use fleeting_plugin_vcd.Store.Query.{tally}

-- `phaseOrder`
abbrev pub phase_order : List Phase
phase_order = creating ∷ pending_create ∷ running ∷ deleting ∷ pending_delete ∷ deleted ∷ []

-- `counts[p]` after the loop of `summary`.
unfoldable pub count_of : List Instance → Phase → ℕ
count_of all p = tally (λ i. phase_eq i.phase p) all

-- `phaseCount`
pub record PhaseCount : Type 0 where
  pub phase : String
  pub count : ℕ

-- The loop of `summary` over the phases: a phase with no instance has no row.
unfoldable pub phase_rows : List Instance → List Phase → List PhaseCount
unfolding count_of
phase_rows all [] = []
phase_rows all (p ∷ ps) =
    let rest = phase_rows all ps in
    let n = count_of all p in
    if ltb 0 n then record { phase = phase_string p; count = n } ∷ rest else rest

-- `Phases` and `Total` of `summary`.
unfoldable pub summary : Store → List PhaseCount × ℕ
unfolding phase_rows
summary s = let all = get_all s in (phase_rows all phase_order, length all)

-- `instanceSource`
unfoldable pub instance_source : Instance → String
instance_source i =
    if i.leftover
    then "leftover"
    else elim i.created_at [ none ↦ "preexisting" | some _ ↦ "created" ]

-- `phaseSince`
unfoldable pub phase_since : Instance → Option ℕ
phase_since i = elim i.phase [
  | pending_create ↦ i.created_at
  | creating ↦ i.create_started_at
  | running ↦ i.create_completed_at
  | pending_delete ↦ i.delete_requested_at
  | deleting ↦ i.delete_started_at
  | deleted ↦ i.delete_completed_at
]
