-- ===== src/Store/Index.antt =====
-- store.go: what ties the two maps of the store to the heap.
pub mod Keep
pub mod Add
pub mod Update
pub mod Prune
pub mod Learnt
pub mod Reach
use fleeting_plugin_vcd.Base.{
  ℕ, ◌<◌, ◌≡◌, refl, ◌≢◌, ◌↔◌, String, inl, inr, none, some, lookup, IsMap, arith, Option-cases,
}
use fleeting_plugin_vcd.Instance.{Instance}
use fleeting_plugin_vcd.Store.{Store, new_store, get_by_vapp_href, get_by_intent_id}

pub record IsWellFormed (s : Store) : Type 0 where
  -- No intent ID is listed twice.
  pub keys : IsMap s.instances
  -- The primary map leads to allocated instances, and from an instance's own intent ID.
  pub allocated : (k : String) (p : ℕ) → lookup k s.instances ≡ some p → p < s.next
  pub named : (k : String) (p : ℕ) → lookup k s.instances ≡ some p → (s.cell p).intent_id ≡ k
  -- Every tracked instance with an HREF is indexed under it.
  pub linked :
      (k : String) (p : ℕ)
      → lookup k s.instances ≡ some p
      → (s.cell p).id ≢ ""
      → lookup (s.cell p).id s.by_vapp_href ≡ some p
  pub nonempty : lookup "" s.by_vapp_href ≡ none
  -- The index holds tracked instances only, each under its own HREF.
  pub indexed : (h : String) (p : ℕ) → lookup h s.by_vapp_href ≡ some p → (s.cell p).id ≡ h
  pub tracked :
      (h : String) (p : ℕ)
      → lookup h s.by_vapp_href ≡ some p
      → lookup (s.cell p).intent_id s.instances ≡ some p

pub new_store-IsWellFormed : IsWellFormed new_store
unfolding new_store lookup
new_store-IsWellFormed = record {
  keys = tt;
  allocated = λ k p e. cc;
  named = λ k p e. cc;
  linked = λ k p e. cc;
  nonempty = refl;
  indexed = λ h p e. cc;
  tracked = λ h p e. cc;
}

-- What a lookup by a key reads, and through which pointer.
pub get_by_intent_id-held :
    (s : Store) (k : String) (i : Instance)
    → get_by_intent_id s k ≡ some i
    → (p : ℕ) × (lookup k s.instances ≡ some p) × (s.cell p ≡ i)
unfolding get_by_intent_id
get_by_intent_id-held s k i e = elim (Option-cases (lookup k s.instances)) [
  | inl missing ↦ absurd (ground (arith, missing))
  | inr (p, held) ↦ (p, held, ground (arith, held))
]

pub get_by_vapp_href-held :
    (s : Store) (h : String) (i : Instance)
    → get_by_vapp_href s h ≡ some i
    → (p : ℕ) × (lookup h s.by_vapp_href ≡ some p) × (s.cell p ≡ i)
unfolding get_by_vapp_href
get_by_vapp_href-held s h i e = elim (Option-cases (lookup h s.by_vapp_href)) [
  | inl missing ↦ absurd (ground (arith, missing))
  | inr (p, held) ↦ (p, held, ground (arith, held))
]

-- In a well-formed store the two indexes agree: an instance is found under a (non-empty) HREF
-- exactly when it has that HREF and is found under its own intent ID.
pub lookups_agree :
    (s : Store) (h : String) (i : Instance)
    → IsWellFormed s
    → h ≢ ""
    → (get_by_vapp_href s h ≡ some i) ↔ ((i.id ≡ h) × (get_by_intent_id s i.intent_id ≡ some i))
unfolding get_by_vapp_href get_by_intent_id
lookups_agree s h i w ne = (
  λ e.
      let (p, held, at_p) = get_by_vapp_href-held s h i e in
      (ground (arith, w.indexed h p), ground (arith, w.tracked h p)),
  λ (own, e).
      let (p, held, at_p) = get_by_intent_id-held s i.intent_id i e in
      ground (arith, w.linked i.intent_id p),
)
