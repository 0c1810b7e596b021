-- ===== src/Store/Phases.antt =====
-- store.go: which phases an intent ID goes through, whatever becomes of its instance. An instance
-- is unmade while it is PendingCreate or Creating; it has no HREF then.
pub mod Update
use fleeting_plugin_vcd.Base.{
  ℕ, ◌≡◌, refl, ◌∙◌, ◌≢◌, ◌⊎◌, inl, inr, String, Bool, true, false, Option, none, some, List, [],
  ◌∷◌, lookup, values, arith, eq_iff, lookup-put, Option-cases,
}
use fleeting_plugin_vcd.Instance.{
  Phase, pending_create, creating, running, pending_delete, deleting, deleted, Instance,
}
use fleeting_plugin_vcd.Store.{Store, new_store, write, assign, find_locked}
use fleeting_plugin_vcd.Store.Ops.{
  add_create_intent, request_delete, mark_for_deletion, add_leftover, observe, Observation,
  update_from_vcd, miss, update_each, mark_disappeared,
}
use fleeting_plugin_vcd.Store.Expiry.{collect, mark_gc, is_stale, prune}
use fleeting_plugin_vcd.Store.Index.{IsWellFormed, new_store-IsWellFormed}
use fleeting_plugin_vcd.Store.Index.Add.{add_create_intent-IsWellFormed, add_leftover-IsWellFormed}
use fleeting_plugin_vcd.Store.Index.Keep.{
  mark_for_deletion-IsWellFormed, update_from_vcd-IsWellFormed, mark_gc-IsWellFormed,
  mark_disappeared-IsWellFormed,
}
use fleeting_plugin_vcd.Store.Index.Prune.{prune_exact, prune-IsWellFormed, prune_absent}

abbrev pub is_unmade : Phase → Bool
is_unmade pending_create = true
is_unmade creating = true
is_unmade _ = false

abbrev pub unmade : Option Phase → Bool
unmade none = false
unmade (some p) = is_unmade p

-- The phase of the instance behind a pointer, if any.
abbrev pub phase_at : (ℕ → Instance) → Option ℕ → Option Phase
phase_at c none = none
phase_at c (some p) = some (c p).phase

abbrev pub phase_of : Store → String → Option Phase
phase_of s id = phase_at s.cell (lookup id s.instances)

pub record IsSound (s : Store) : Type 0 where
  pub well : IsWellFormed s
  pub bare :
      (k : String) (p : ℕ)
      → lookup k s.instances ≡ some p
      → (is_unmade (s.cell p).phase ≡ false) ⊎ ((s.cell p).id ≡ "")

-- The phase stays, or is neither before nor after one of an unmade instance.
abbrev pub Alike : Option Phase → Option Phase → Type 0
Alike a b = (a ≡ b) ⊎ ((unmade a ≡ false) × (unmade b ≡ false))

-- A step after which the store is sound and no instance has become or ceased to be unmade.
abbrev pub IsQuiet : Store → Store → Type 0
IsQuiet s t = IsSound t × ((id : String) → Alike (phase_of t id) (phase_of s id))

pub Alike-trans : (a b c : Option Phase) → Alike a b → Alike b c → Alike a c
Alike-trans a b c x y = ground (arith, x, y)

pub IsQuiet-refl : (s : Store) → IsSound s → IsQuiet s s
IsQuiet-refl s sound = (sound, λ id. inl refl)

pub IsQuiet-trans : (s t u : Store) → IsQuiet s t → IsQuiet t u → IsQuiet s u
IsQuiet-trans s t u x y =
    (y.0, λ id. Alike-trans (phase_of u id) (phase_of t id) (phase_of s id) (y.1 id) (x.1 id))

-- An instance that changes in place.
abbrev pub IsCalm : Instance → Instance → Type 0
IsCalm j i =
    (j.id ≡ i.id)
    × ((j.phase ≡ i.phase) ⊎ ((is_unmade j.phase ≡ false) × (is_unmade i.phase ≡ false)))

request_delete-IsCalm : (now : ℕ) (i : Instance) → IsCalm (request_delete now i) i
unfolding request_delete
request_delete-IsCalm now i = ground arith

collect-IsCalm : (now : ℕ) (i : Instance) → IsCalm (collect now i) i
unfolding collect
collect-IsCalm now i = ground arith

observe-IsCalm : (o : Observation) (now : ℕ) (i : Instance) → IsCalm (observe o now i) i
unfolding observe
observe-IsCalm o now i = (refl, inl refl)

miss-IsCalm : (known : List String) (now : ℕ) (i : Instance) → IsCalm (miss known now i) i
unfolding miss
miss-IsCalm known now i = ground arith

-- A heap whose instances changed calmly.
cell-IsQuiet :
    (s : Store) (c : ℕ → Instance)
    → ((p : ℕ) → IsCalm (c p) (s.cell p))
    → IsSound s
    → IsWellFormed (record s { cell = c })
    → IsQuiet s (record s { cell = c })
cell-IsQuiet s c calm sound well = (
  record { well = well; bare = λ k p e. ground (arith, calm p, sound.bare k p) },
  λ id. elim (Option-cases (lookup id s.instances)) [
    | inl e ↦ rw e (inl refl)
    | inr (p, e) ↦ rw e (ground (arith, calm p))
  ],
)

pub write-IsCalm :
    (c : ℕ → Instance) (p : ℕ) (i : Instance)
    → IsCalm i (c p)
    → (q : ℕ) → IsCalm (write c p i q) (c q)
write-IsCalm c p i calm q = ground arith

update_each-IsCalm :
    (f : Instance → Instance)
    → ((i : Instance) → IsCalm (f i) i)
    → (ps : List ℕ) (c : ℕ → Instance) (q : ℕ) → IsCalm (update_each f ps c q) (c q)
unfolding update_each
update_each-IsCalm f calm [] c q = (refl, inl refl)
update_each-IsCalm f calm (p ∷ ps) c q = ground (
  arith,
  update_each-IsCalm f calm ps (write c p (f (c p))) q,
  write-IsCalm c p (f (c p)) (calm (c p)) q,
)

pub mark_for_deletion-IsQuiet :
    (id : String) (now : ℕ) (s : Store) → IsSound s → IsQuiet s (mark_for_deletion id now s)
unfolding mark_for_deletion
mark_for_deletion-IsQuiet id now s sound = elim (Option-cases (find_locked s id)) [
  | inl e ↦ rw (e, mark_for_deletion) (IsQuiet-refl s sound)
  | inr (p, e) ↦
      rw (e, mark_for_deletion)
        (cell-IsQuiet s (write s.cell p (request_delete now (s.cell p)))
          (write-IsCalm s.cell p _ (request_delete-IsCalm now (s.cell p))) sound
          (rw (e, mark_for_deletion) at (mark_for_deletion-IsWellFormed id now s sound.well)))
]

pub mark_gc-IsQuiet : (id : String) (now : ℕ) (s : Store) → IsSound s → IsQuiet s (mark_gc id now s)
unfolding mark_gc
mark_gc-IsQuiet id now s sound = elim (Option-cases (lookup id s.instances)) [
  | inl e ↦ rw (e, mark_gc) (IsQuiet-refl s sound)
  | inr (p, e) ↦
      rw (e, mark_gc)
        (cell-IsQuiet s (write s.cell p (collect now (s.cell p)))
          (write-IsCalm s.cell p _ (collect-IsCalm now (s.cell p))) sound
          (rw (e, mark_gc) at (mark_gc-IsWellFormed id now s sound.well)))
]

pub update_from_vcd-IsQuiet :
    (href : String) (o : Observation) (now : ℕ) (s : Store)
    → IsSound s
    → IsQuiet s (update_from_vcd href o now s).0
unfolding update_from_vcd
update_from_vcd-IsQuiet href o now s sound = elim (Option-cases (lookup href s.by_vapp_href)) [
  | inl e ↦ rw (e, update_from_vcd) (IsQuiet-refl s sound)
  | inr (p, e) ↦
      rw (e, update_from_vcd)
        (cell-IsQuiet s (write s.cell p (observe o now (s.cell p)))
          (write-IsCalm s.cell p _ (observe-IsCalm o now (s.cell p))) sound
          (rw (e, update_from_vcd) at (update_from_vcd-IsWellFormed href o now s sound.well)))
]

pub mark_disappeared-IsQuiet :
    (known : List String) (now : ℕ) (s : Store)
    → IsSound s
    → IsQuiet s (mark_disappeared known now s)
mark_disappeared-IsQuiet known now s sound =
    let well = mark_disappeared-IsWellFormed known now s sound.well in
    unfold mark_disappeared in
    cell-IsQuiet s _
      (update_each-IsCalm (miss known now) (miss-IsCalm known now) (values s.instances) s.cell)
      sound well

pub add_leftover-IsQuiet :
    (href name : String) (now : ℕ) (s : Store)
    → IsSound s
    → href ≢ ""
    → (lookup href s.by_vapp_href ≡ none → lookup href s.instances ≡ none)
    → IsQuiet s (add_leftover href name now s).0
unfolding add_leftover
add_leftover-IsQuiet href name now s sound ne new = (
  record {
    well = add_leftover-IsWellFormed href name now s sound.well ne new;
    bare = λ k p e. ground (
      arith,
      eq_iff href k,
      lookup-put href k s.next s.instances,
      sound.bare k p,
      sound.well.allocated k p,
    );
  },
  λ id. elim (Option-cases (lookup id s.instances)) [
    | inl e ↦ ground (arith, eq_iff href id, lookup-put href id s.next s.instances)
    | inr (p, e) ↦
        ground
          (arith, eq_iff href id, lookup-put href id s.next s.instances, sound.well.allocated id p)
  ],
)

pub prune-IsQuiet : (now : ℕ) (s : Store) → IsSound s → IsQuiet s (prune now s)
prune-IsQuiet now s sound = (
  record {
    well = prune-IsWellFormed now s sound.well;
    bare = λ k p e. elim (Option-cases (lookup k s.instances)) [
      | inl missing ↦ absurd (ground (arith, prune_absent now s k missing))
      | inr (q, held) ↦
          unfold is_stale in ground (arith, prune_exact now s k q sound.well held, sound.bare k q)
    ];
  },
  λ id. elim (Option-cases (lookup id s.instances)) [
    | inl missing ↦ ground (arith, prune_absent now s id missing)
    | inr (q, held) ↦ unfold is_stale in ground (arith, prune_exact now s id q sound.well held)
  ],
)
