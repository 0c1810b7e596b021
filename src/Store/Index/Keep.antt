-- ===== src/Store/Index/Keep.antt =====
-- store.go: the methods that change instances in place keep the maps well formed.
use fleeting_plugin_vcd.Base.{
  ℕ, ◌≡◌, refl, ◌∙◌, String, inl, inr, List, [], ◌∷◌, lookup, values, arith, Option-cases,
}
use fleeting_plugin_vcd.Instance.{Instance}
use fleeting_plugin_vcd.Store.{Store, write, assign, find_locked}
use fleeting_plugin_vcd.Store.Index.{IsWellFormed}
use fleeting_plugin_vcd.Store.Ops.{
  request_delete, mark_for_deletion, observe, Observation, update_from_vcd, miss, update_each,
  mark_disappeared,
}
use fleeting_plugin_vcd.Store.Expiry.{collect, mark_gc}

-- The identity of an instance: what the two maps are keyed by.
abbrev pub SameKeys : Instance → Instance → Type 0
SameKeys i j = (i.id ≡ j.id) × (i.intent_id ≡ j.intent_id)

-- A heap that keeps the identities keeps the maps well formed.
pub cell-IsWellFormed :
    (s : Store) (c : ℕ → Instance)
    → ((p : ℕ) → SameKeys (c p) (s.cell p))
    → IsWellFormed s
    → IsWellFormed (record s { cell = c })
cell-IsWellFormed s c same w = record {
  keys = w.keys;
  allocated = w.allocated;
  named = λ k p e. (same p).1 ∙ w.named k p e;
  linked = λ k p e h. rw (same p).0 (w.linked k p e (rw (same p).0 at h));
  nonempty = w.nonempty;
  indexed = λ h p e. (same p).0 ∙ w.indexed h p e;
  tracked = λ h p e. rw (same p).1 (w.tracked h p e);
}

write-SameKeys :
    (c : ℕ → Instance) (p : ℕ) (i : Instance)
    → SameKeys i (c p)
    → (q : ℕ) → SameKeys (write c p i q) (c q)
write-SameKeys c p i same q = ground arith

update_each-SameKeys :
    (f : Instance → Instance)
    → ((i : Instance) → SameKeys (f i) i)
    → (ps : List ℕ) (c : ℕ → Instance) (q : ℕ) → SameKeys (update_each f ps c q) (c q)
unfolding update_each
update_each-SameKeys f same [] c q = (refl, refl)
update_each-SameKeys f same (p ∷ ps) c q =
    let (a, b) = update_each-SameKeys f same ps (write c p (f (c p))) q in
    let (d, e) = write-SameKeys c p (f (c p)) (same (c p)) q in (a ∙ d, b ∙ e)

request_delete-SameKeys : (now : ℕ) (i : Instance) → SameKeys (request_delete now i) i
unfolding request_delete
request_delete-SameKeys now i = ground arith

collect-SameKeys : (now : ℕ) (i : Instance) → SameKeys (collect now i) i
unfolding collect
collect-SameKeys now i = ground arith

observe-SameKeys : (o : Observation) (now : ℕ) (i : Instance) → SameKeys (observe o now i) i
unfolding observe
observe-SameKeys o now i = (refl, refl)

pub miss-SameKeys : (known : List String) (now : ℕ) (i : Instance) → SameKeys (miss known now i) i
unfolding miss
miss-SameKeys known now i = ground arith

pub assign-IsWellFormed :
    (s : Store) (p : ℕ) (i : Instance)
    → SameKeys i (s.cell p)
    → IsWellFormed s
    → IsWellFormed (assign s p i)
assign-IsWellFormed s p i same =
    cell-IsWellFormed s (write s.cell p i) (write-SameKeys s.cell p i same)

pub mark_for_deletion-IsWellFormed :
    (id : String) (now : ℕ) (s : Store) → IsWellFormed s → IsWellFormed (mark_for_deletion id now s)
unfolding mark_for_deletion
mark_for_deletion-IsWellFormed id now s w = elim (Option-cases (find_locked s id)) [
  | inl e ↦ rw (e, mark_for_deletion) w
  | inr (p, e) ↦
      rw (e, mark_for_deletion)
        (assign-IsWellFormed s p _ (request_delete-SameKeys now (s.cell p)) w)
]

pub update_from_vcd-IsWellFormed :
    (href : String) (o : Observation) (now : ℕ) (s : Store)
    → IsWellFormed s
    → IsWellFormed (update_from_vcd href o now s).0
unfolding update_from_vcd
update_from_vcd-IsWellFormed href o now s w = elim (Option-cases (lookup href s.by_vapp_href)) [
  | inl e ↦ rw (e, update_from_vcd) w
  | inr (p, e) ↦
      rw (e, update_from_vcd) (assign-IsWellFormed s p _ (observe-SameKeys o now (s.cell p)) w)
]

pub mark_gc-IsWellFormed :
    (id : String) (now : ℕ) (s : Store) → IsWellFormed s → IsWellFormed (mark_gc id now s)
unfolding mark_gc
mark_gc-IsWellFormed id now s w = elim (Option-cases (lookup id s.instances)) [
  | inl e ↦ rw (e, mark_gc) w
  | inr (p, e) ↦ rw (e, mark_gc) (assign-IsWellFormed s p _ (collect-SameKeys now (s.cell p)) w)
]

pub mark_disappeared-IsWellFormed :
    (known : List String) (now : ℕ) (s : Store)
    → IsWellFormed s
    → IsWellFormed (mark_disappeared known now s)
unfolding mark_disappeared
mark_disappeared-IsWellFormed known now s =
    cell-IsWellFormed s _
      (update_each-SameKeys (miss known now) (miss-SameKeys known now) (values s.instances) s.cell)
