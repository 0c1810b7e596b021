-- ===== src/Store/Index/Learnt.antt =====
-- store.go, `UpdateInstance`: what the store gives back once an instance learns its HREF.
use fleeting_plugin_vcd.Base.{
  ℕ, ◌≡◌, refl, sym, subst, ◌∙◌, ◌≢◌, inl, inr, String, str_eq, Option, none, some, lookup,
  lookup-del, lookup-put, if◌then◌else◌, arith, eq_iff, Option-cases, Bool-cases,
}
use fleeting_plugin_vcd.Instance.{Instance}
use fleeting_plugin_vcd.Store.{Store, assign, get_by_intent_id, get_by_vapp_href}
use fleeting_plugin_vcd.Store.Ops.{link, update_instance}
use fleeting_plugin_vcd.Store.Index.{IsWellFormed, get_by_intent_id-held}
use fleeting_plugin_vcd.Store.Index.Update.{link-new, link-oust}

-- What is left of another instance when one takes the HREF `h`.
abbrev pub unless_at : String → Option Instance → Option Instance
unless_at h none = none
unless_at h (some o) = if str_eq o.id h then none else some o

-- The instance behind `p`, which has no HREF, becomes `j`, which has one.
module _ (s : Store) (w : IsWellFormed s) (id : String) (p : ℕ) (j : Instance)
    (held : lookup id s.instances ≡ some p) (bare : (s.cell p).id ≡ "") (ne : j.id ≢ "")
    (own : j.intent_id ≡ id) where
  abbrev linked : Store
  linked = link p (assign s p j)

  others_apart : (e : ℕ) → lookup j.id s.by_vapp_href ≡ some e → e ≢ p
  others_apart e dup same = ground (arith, w.indexed j.id e dup)

  owner_apart : (e : ℕ) → lookup j.id s.by_vapp_href ≡ some e → (s.cell e).intent_id ≢ id
  owner_apart e dup same =
      others_apart e dup (ground (arith, rw same at (w.tracked j.id e dup), held))

  link-found : (get_by_intent_id linked id ≡ some j) × (get_by_vapp_href linked j.id ≡ some j)
  unfolding get_by_intent_id get_by_vapp_href
  link-found = elim (Option-cases (lookup j.id s.by_vapp_href)) [
    | inl new ↦ rw (link-new s p j ne new) (
      ground (arith, held),
      ground (arith, lookup-put j.id j.id p s.by_vapp_href, eq_iff j.id j.id),
    )
    | inr (e, dup) ↦ rw (link-oust s p j e ne (others_apart e dup) dup) (
      ground (
        arith,
        held,
        owner_apart e dup,
        eq_iff (s.cell e).intent_id id,
        lookup-del (s.cell e).intent_id id s.instances,
      ),
      ground (arith, lookup-put j.id j.id p s.by_vapp_href, eq_iff j.id j.id),
    )
  ]

  -- Another instance is behind another pointer.
  pointer_apart : (k : String) (q : ℕ) → k ≢ id → lookup k s.instances ≡ some q → q ≢ p
  pointer_apart k q apart at_q same = apart (ground (arith, w.named k q at_q, w.named id p held))

  -- Who has the new HREF is in the index.
  indexed_at :
      (k : String) (q : ℕ)
      → lookup k s.instances ≡ some q
      → (s.cell q).id ≡ j.id
      → lookup j.id s.by_vapp_href ≡ some q
  indexed_at k q at_q same = rw same at (w.linked k q at_q (λ blank. ne (sym same ∙ blank)))

  link-others :
      (k : String) → k ≢ id → get_by_intent_id linked k ≡ unless_at j.id (get_by_intent_id s k)
  unfolding get_by_intent_id
  link-others k apart = elim (Option-cases (lookup j.id s.by_vapp_href)) [
    | inl new ↦ rw (link-new s p j ne new) elim (Option-cases (lookup k s.instances)) [
      | inl missing ↦ rw missing refl
      | inr (q, at_q) ↦ ground (
        arith,
        at_q,
        pointer_apart k q apart at_q,
        eq_iff (s.cell q).id j.id,
        indexed_at k q at_q,
      )
    ]
    | inr (e, dup) ↦
        rw (link-oust s p j e ne (others_apart e dup) dup)
          elim (Option-cases (lookup k s.instances)) [
            | inl missing ↦ ground (arith, missing, lookup-del (s.cell e).intent_id k s.instances)
            | inr (q, at_q) ↦ elim (Bool-cases (str_eq (s.cell q).id j.id)) [
              | inl same ↦ ground (
                arith,
                same,
                at_q,
                dup,
                eq_iff (s.cell q).id j.id,
                indexed_at k q at_q,
                eq_iff (s.cell e).intent_id k,
                w.named k q at_q,
                lookup-del (s.cell e).intent_id k s.instances,
              )
              | inr differs ↦ ground (
                arith,
                differs,
                at_q,
                dup,
                eq_iff (s.cell q).id j.id,
                pointer_apart k q apart at_q,
                eq_iff (s.cell e).intent_id k,
                w.tracked j.id e dup,
                w.indexed j.id e dup,
                lookup-del (s.cell e).intent_id k s.instances,
              )
            ]
          ]
  ]

update_instance-link :
    (s : Store) (id : String) (p : ℕ) (fn : Instance → Instance) (now : ℕ)
    → lookup id s.instances ≡ some p
    → update_instance id fn now s
      ≡ link p (assign s p (record (fn (s.cell p)) { last_updated = some now }))
unfolding update_instance
update_instance-link s id p fn now held = rw (held, update_instance) refl

-- In a well-formed store, an instance that has no HREF and is given one is found again, as it was
-- written, under its intent ID and under its HREF; of the others, the one that had this HREF is
-- forgotten, and the rest are found as they were.
pub update_instance-found :
    (s : Store) (id : String) (i : Instance) (fn : Instance → Instance) (now : ℕ)
    → IsWellFormed s
    → get_by_intent_id s id ≡ some i
    → i.id ≡ ""
    → (fn i).id ≢ ""
    → (fn i).intent_id ≡ id
    → (get_by_intent_id (update_instance id fn now s) id
        ≡ some (record (fn i) { last_updated = some now }))
      × (get_by_vapp_href (update_instance id fn now s) (fn i).id
          ≡ some (record (fn i) { last_updated = some now }))
      × ((k : String)
          → k ≢ id
          → get_by_intent_id (update_instance id fn now s) k
            ≡ unless_at (fn i).id (get_by_intent_id s k))
update_instance-found s id i fn now w at_i bare ne own =
    let (p, held, at_p) = get_by_intent_id-held s id i at_i in
    let j = record (fn i) { last_updated = some now } in
    let no_href : (s.cell p).id ≡ "" = rw at_p bare in
    let (by_id, by_href) = link-found s w id p j held no_href ne own in
    let moved =
      subst
        (λ x.
          update_instance id fn now s
          ≡ link p (assign s p (record (fn x) { last_updated = some now })))
        at_p (update_instance-link s id p fn now held) in
    rw moved (by_id, by_href, link-others s w id p j held no_href ne own)
