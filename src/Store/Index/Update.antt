-- ===== src/Store/Index/Update.antt =====
-- store.go, `UpdateInstance`: learning an HREF keeps the maps well formed, also when a poll has
-- already tracked the same vApp under another entry.
use fleeting_plugin_vcd.Base.{
  ℕ, ◌≡◌, ◌≢◌, ◌⊎◌, String, inl, inr, none, some, lookup, put, del, arith, Bool-cases, Option-cases,
  eq_iff, str_eq, lookup-put, lookup-del, del-IsMap,
}
use fleeting_plugin_vcd.Instance.{Instance}
use fleeting_plugin_vcd.Store.{Store, assign}
use fleeting_plugin_vcd.Store.Index.{IsWellFormed}
use fleeting_plugin_vcd.Store.Index.Keep.{assign-IsWellFormed}
use fleeting_plugin_vcd.Store.Ops.{link, update_instance}

-- The instance behind `p`, tracked with no HREF so far, learns one.
module _ (s : Store) (w : IsWellFormed s) (p : ℕ) (i : Instance)
    (held : lookup i.intent_id s.instances ≡ some p) (bare : (s.cell p).id ≡ "")
    (ne : i.id ≢ "") where
  unindexed : (h : String) → lookup h s.by_vapp_href ≢ some p
  unindexed h e = ground (arith, w.indexed h p, w.nonempty)

  -- Nothing else is tracked under the HREF.
  learn-IsWellFormed :
      lookup i.id s.by_vapp_href ≡ none
      → IsWellFormed (record (assign s p i) { by_vapp_href = put i.id p s.by_vapp_href })
  learn-IsWellFormed new = record {
    keys = w.keys;
    allocated = w.allocated;
    named = λ k q e. ground (arith, w.named k q, w.named i.intent_id p);
    linked = λ k q e h. ground (
      arith,
      eq_iff i.id i.id,
      eq_iff i.id (s.cell q).id,
      lookup-put i.id i.id p s.by_vapp_href,
      lookup-put i.id (s.cell q).id p s.by_vapp_href,
      w.linked k q,
    );
    nonempty = ground (arith, eq_iff i.id "", lookup-put i.id "" p s.by_vapp_href, w.nonempty);
    indexed = λ h q e.
        ground
          (arith, eq_iff i.id h, lookup-put i.id h p s.by_vapp_href, w.indexed h q, unindexed h);
    tracked = λ h q e.
        ground
          (arith, eq_iff i.id h, lookup-put i.id h p s.by_vapp_href, w.tracked h q, unindexed h);
  }

  -- Another instance was tracked under the HREF: it gives way.
  module _ (e : ℕ) (other : e ≢ p) (dup : lookup i.id s.by_vapp_href ≡ some e) where
    oust-IsWellFormed : IsWellFormed (record (assign s p i) {
      by_vapp_href = put i.id p s.by_vapp_href;
      instances = del (s.cell e).intent_id s.instances;
    })
    oust-IsWellFormed = record {
      keys = del-IsMap (s.cell e).intent_id s.instances w.keys;
      allocated =
          λ k q h. ground (arith, lookup-del (s.cell e).intent_id k s.instances, w.allocated k q);
      named = λ k q h. ground (
        arith,
        lookup-del (s.cell e).intent_id k s.instances,
        w.named k q,
        w.named i.intent_id p,
      );
      linked = λ k q h n. ground (
        arith,
        eq_iff (s.cell e).intent_id k,
        eq_iff i.id i.id,
        eq_iff i.id (s.cell q).id,
        lookup-del (s.cell e).intent_id k s.instances,
        lookup-put i.id i.id p s.by_vapp_href,
        lookup-put i.id (s.cell q).id p s.by_vapp_href,
        w.linked k q,
        w.named k q,
      );
      nonempty = ground (arith, eq_iff i.id "", lookup-put i.id "" p s.by_vapp_href, w.nonempty);
      indexed = λ h q n.
          ground
            (arith, eq_iff i.id h, lookup-put i.id h p s.by_vapp_href, w.indexed h q, unindexed h);
      tracked = λ h q n. ground (
        arith,
        eq_iff i.id h,
        eq_iff (s.cell e).intent_id i.intent_id,
        eq_iff (s.cell e).intent_id (s.cell q).intent_id,
        lookup-put i.id h p s.by_vapp_href,
        lookup-del (s.cell e).intent_id i.intent_id s.instances,
        lookup-del (s.cell e).intent_id (s.cell q).intent_id s.instances,
        w.tracked h q,
        w.tracked i.id e,
        w.indexed i.id e,
        w.indexed h q,
        unindexed h,
      );
    }

-- The four ways that `link` goes once the instance behind `p` is `i`.
module _ (s : Store) (p : ℕ) (i : Instance) where
  pub link-bare : i.id ≡ "" → link p (assign s p i) ≡ assign s p i
  unfolding link
  link-bare h = ground (arith, eq_iff i.id "")

  pub link-new :
      i.id ≢ ""
      → lookup i.id s.by_vapp_href ≡ none
      → link p (assign s p i) ≡ record (assign s p i) { by_vapp_href = put i.id p s.by_vapp_href }
  unfolding link
  link-new h e = ground (arith, eq_iff i.id "")

  pub link-same :
      i.id ≢ ""
      → lookup i.id s.by_vapp_href ≡ some p
      → link p (assign s p i) ≡ record (assign s p i) { by_vapp_href = put i.id p s.by_vapp_href }
  unfolding link
  link-same h e = ground (arith, eq_iff i.id "")

  pub link-oust :
      (e : ℕ)
      → i.id ≢ ""
      → e ≢ p
      → lookup i.id s.by_vapp_href ≡ some e
      → link p (assign s p i) ≡ record (assign s p i) {
        by_vapp_href = put i.id p s.by_vapp_href;
        instances = del (s.cell e).intent_id s.instances;
      }
  unfolding link
  link-oust e h other at_e = ground (arith, eq_iff i.id "")

-- Writing an entry that the index has already changes nothing that the maps say.
relink-IsWellFormed :
    (s : Store) (h : String) (p : ℕ)
    → IsWellFormed s
    → lookup h s.by_vapp_href ≡ some p
    → IsWellFormed (record s { by_vapp_href = put h p s.by_vapp_href })
relink-IsWellFormed s h p w e = record {
  keys = w.keys;
  allocated = w.allocated;
  named = w.named;
  linked = λ k q f n. rw (same (s.cell q).id) (w.linked k q f n);
  nonempty = rw (same "") w.nonempty;
  indexed = λ j q f. w.indexed j q (rw (same j) at f);
  tracked = λ j q f. w.tracked j q (rw (same j) at f);
}
  where
    same : (j : String) → lookup j (put h p s.by_vapp_href) ≡ lookup j s.by_vapp_href
    same j = ground (arith, eq_iff h j, lookup-put h j p s.by_vapp_href)

-- An update may give an HREF to an instance that has none, and may not change one.
abbrev pub KeepsKeys : Instance → Instance → Type 0
KeepsKeys i old = (i.intent_id ≡ old.intent_id) × ((i.id ≡ old.id) ⊎ (old.id ≡ ""))

module _ (s : Store) (w : IsWellFormed s) (p : ℕ) (i : Instance)
    (held : lookup (s.cell p).intent_id s.instances ≡ some p) (keeps : KeepsKeys i (s.cell p)) where
  held_i : lookup i.intent_id s.instances ≡ some p
  held_i = rw keeps.0 held

  -- The HREF stays as it is.
  link_kept : i.id ≡ (s.cell p).id → IsWellFormed (link p (assign s p i))
  link_kept same =
      let kept = assign-IsWellFormed s p i (same, keeps.0) w in
      elim (Bool-cases (str_eq i.id "")) [
        | inl none_yet ↦ rw (link-bare s p i ((eq_iff i.id "").0 none_yet)) kept
        | inr known ↦
            let ne : i.id ≢ "" = ground (arith, eq_iff i.id "") in
            let at_p : lookup i.id s.by_vapp_href ≡ some p =
              ground (arith, w.linked (s.cell p).intent_id p) in
            rw (link-same s p i ne at_p) (relink-IsWellFormed (assign s p i) i.id p kept at_p)
      ]

  -- The first HREF of the instance.
  link_learnt : (s.cell p).id ≡ "" → i.id ≢ "" → IsWellFormed (link p (assign s p i))
  link_learnt bare ne = elim (Option-cases (lookup i.id s.by_vapp_href)) [
    | inl e ↦ rw (link-new s p i ne e) (learn-IsWellFormed s w p i held_i bare ne e)
    | inr (e, at_e) ↦
        let other : e ≢ p = λ same. unindexed s w p i held_i bare ne i.id (rw same at at_e) in
        rw (link-oust s p i e ne other at_e) (oust-IsWellFormed s w p i held_i bare ne e other at_e)
  ]

  link-IsWellFormed : IsWellFormed (link p (assign s p i))
  link-IsWellFormed = elim (Bool-cases (str_eq i.id (s.cell p).id)) [
    | inl same ↦ link_kept ((eq_iff _ _).0 same)
    | inr differs ↦
        let bare : (s.cell p).id ≡ "" = ground (arith, eq_iff i.id (s.cell p).id) in
        link_learnt bare (ground (arith, eq_iff i.id (s.cell p).id))
  ]

pub update_instance-IsWellFormed :
    (id : String) (fn : Instance → Instance) (now : ℕ) (s : Store)
    → IsWellFormed s
    → ((p : ℕ) → lookup id s.instances ≡ some p → KeepsKeys (fn (s.cell p)) (s.cell p))
    → IsWellFormed (update_instance id fn now s)
unfolding update_instance
update_instance-IsWellFormed id fn now s w keeps = elim (Option-cases (lookup id s.instances)) [
  | inl e ↦ rw (e, update_instance) w
  | inr (p, e) ↦
      rw (e, update_instance)
        (link-IsWellFormed s w p (record (fn (s.cell p)) { last_updated = some now })
          (rw (w.named id p e) e) (keeps p e))
]
