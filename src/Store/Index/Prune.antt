-- ===== src/Store/Index/Prune.antt =====
-- store.go, `Prune`: the maps stay well formed, what goes is stale, and nothing stale stays.
use fleeting_plugin_vcd.Base.{
  ℕ, ◌≡◌, refl, ◌∙◌, String, inl, inr, none, some, List, [], ◌∷◌, lookup, del, IsMap, arith,
  Bool-cases, eq_iff, lookup-del, del-IsMap, if◌then◌else◌,
}
use fleeting_plugin_vcd.Store.{Store}
use fleeting_plugin_vcd.Store.Index.{IsWellFormed}
use fleeting_plugin_vcd.Store.Expiry.{is_stale, prune_each, prune}

abbrev pub drop_entry : String → ℕ → Store → Store
drop_entry k p s = record s {
  by_vapp_href = del (s.cell p).id s.by_vapp_href;
  instances = del k s.instances;
}

drop_entry-IsWellFormed :
    (k : String) (p : ℕ) (s : Store)
    → IsWellFormed s
    → lookup k s.instances ≡ some p
    → IsWellFormed (drop_entry k p s)
drop_entry-IsWellFormed k p s w held = record {
  keys = del-IsMap k s.instances w.keys;
  allocated = λ j q e. ground (arith, lookup-del k j s.instances, w.allocated j q);
  named = λ j q e. ground (arith, lookup-del k j s.instances, w.named j q);
  linked = λ j q e n. ground (
    arith,
    eq_iff k j,
    eq_iff (s.cell p).id (s.cell q).id,
    lookup-del k j s.instances,
    lookup-del (s.cell p).id (s.cell q).id s.by_vapp_href,
    w.linked j q,
    w.linked k p,
    w.named j q,
    w.named k p,
  );
  nonempty = ground (arith, lookup-del (s.cell p).id "" s.by_vapp_href, w.nonempty);
  indexed = λ h q e. ground (arith, lookup-del (s.cell p).id h s.by_vapp_href, w.indexed h q);
  tracked = λ h q e. ground (
    arith,
    eq_iff (s.cell p).id h,
    eq_iff k (s.cell q).intent_id,
    lookup-del (s.cell p).id h s.by_vapp_href,
    lookup-del k (s.cell q).intent_id s.instances,
    w.tracked h q,
    w.indexed h q,
  );
}

-- The entries of a list stand in the map.
abbrev pub Listed : List (String × ℕ) → List (String × ℕ) → Type 0
Listed [] m = Unit
Listed ((k, p) ∷ r) m = (lookup k m ≡ some p) × Listed r m

Listed-del :
    (k : String) (r m : List (String × ℕ)) → lookup k r ≡ none → Listed r m → Listed r (del k m)
unfolding lookup
Listed-del k [] m new h = tt
Listed-del k ((j, p) ∷ r) m new h =
    ground (arith, eq_iff j k, eq_iff k j, lookup-del k j m, Listed-del k r m)

Listed-cons :
    (k : String) (p : ℕ) (r m : List (String × ℕ))
    → lookup k r ≡ none
    → Listed r m
    → Listed r ((k, p) ∷ m)
unfolding lookup
Listed-cons k p [] m new h = tt
Listed-cons k p ((j, q) ∷ r) m new h = ground (arith, eq_iff j k, eq_iff k j, Listed-cons k p r m)

pub Listed-self : (m : List (String × ℕ)) → IsMap m → Listed m m
unfolding lookup
Listed-self [] h = tt
Listed-self ((k, p) ∷ m) h =
    (ground (arith, eq_iff k k), Listed-cons k p m m h.0 (Listed-self m h.1))

prune_each-IsWellFormed :
    (now : ℕ) (r : List (String × ℕ)) (s : Store)
    → IsMap r
    → Listed r s.instances
    → IsWellFormed s
    → IsWellFormed (prune_each now r s)
unfolding prune_each
prune_each-IsWellFormed now [] s m l w = w
prune_each-IsWellFormed now ((k, p) ∷ r) s m l w = elim (Bool-cases (is_stale now (s.cell p))) [
  | inl old ↦ rw old (
      prune_each-IsWellFormed now r (drop_entry k p s) m.1 (Listed-del k r s.instances m.0 l.1)
        (drop_entry-IsWellFormed k p s w l.0))
  | inr fresh ↦ rw fresh (prune_each-IsWellFormed now r s m.1 l.1 w)
]

pub prune-IsWellFormed : (now : ℕ) (s : Store) → IsWellFormed s → IsWellFormed (prune now s)
unfolding prune
prune-IsWellFormed now s w =
    prune_each-IsWellFormed now s.instances s w.keys (Listed-self s.instances w.keys) w

-- The heap is not touched.
prune_each-cell : (now : ℕ) (r : List (String × ℕ)) (s : Store) → (prune_each now r s).cell ≡ s.cell
unfolding prune_each
prune_each-cell now [] s = refl
prune_each-cell now ((k, p) ∷ r) s = elim (Bool-cases (is_stale now (s.cell p))) [
  | inl old ↦ rw (old, prune_each) (prune_each-cell now r (drop_entry k p s))
  | inr fresh ↦ rw (fresh, prune_each) (prune_each-cell now r s)
]

-- An entry that the loop does not come to stays.
prune_each-lookup_absent :
    (now : ℕ) (r : List (String × ℕ)) (s : Store) (k : String)
    → lookup k r ≡ none
    → lookup k (prune_each now r s).instances ≡ lookup k s.instances
unfolding prune_each lookup
prune_each-lookup_absent now [] s k new = refl
prune_each-lookup_absent now ((j, p) ∷ r) s k new = elim (Bool-cases (is_stale now (s.cell p))) [
  | inl old ↦
      rw (old, prune_each)
        (ground (
          arith,
          eq_iff j k,
          lookup-del j k s.instances,
          prune_each-lookup_absent now r (drop_entry j p s) k,
        ))
  | inr fresh ↦ rw (fresh, prune_each) (ground (arith, prune_each-lookup_absent now r s k))
]

prune_each-lookup :
    (now : ℕ) (r : List (String × ℕ)) (s : Store) (k : String) (p : ℕ)
    → IsMap r
    → lookup k r ≡ some p
    → lookup k s.instances ≡ some p
    → lookup k (prune_each now r s).instances ≡ (if is_stale now (s.cell p) then none else some p)
unfolding prune_each lookup
prune_each-lookup now [] s k p m at_k held = cc
prune_each-lookup now ((j, q) ∷ r) s k p m at_k held = elim (Bool-cases (is_stale now (s.cell q))) [
  | inl old ↦
      rw (old, prune_each)
        (ground (
          arith,
          eq_iff j k,
          lookup-del j k s.instances,
          prune_each-lookup_absent now r (drop_entry j q s) k,
          prune_each-lookup now r (drop_entry j q s) k p,
        ))
  | inr fresh ↦
      rw (fresh, prune_each)
        (ground
          (arith, eq_iff j k, prune_each-lookup_absent now r s k, prune_each-lookup now r s k p))
]

-- Prune forgets exactly the instances that have been deleted for longer than `pruneAfter`: an
-- intent ID keeps its instance unless that instance is stale, and then it has none.
pub prune_exact :
    (now : ℕ) (s : Store) (k : String) (p : ℕ)
    → IsWellFormed s
    → lookup k s.instances ≡ some p
    → (lookup k (prune now s).instances ≡ (if is_stale now (s.cell p) then none else some p))
      × ((prune now s).cell ≡ s.cell)
unfolding prune
prune_exact now s k p w e =
    (prune_each-lookup now s.instances s k p w.keys e e, prune_each-cell now s.instances s)

pub prune_absent :
    (now : ℕ) (s : Store) (k : String)
    → lookup k s.instances ≡ none
    → lookup k (prune now s).instances ≡ none
unfolding prune
prune_absent now s k missing = prune_each-lookup_absent now s.instances s k missing ∙ missing
