-- ===== src/Store/Phases/Update.antt =====
-- store.go, `UpdateInstance`: what it does to the phases of its own and of other intent IDs.
use fleeting_plugin_vcd.Base.{
  ℕ, ◌≡◌, refl, subst, ◌≢◌, ◌⊎◌, ◌==◌, inl, inr, String, false, none, some, lookup, arith, eq_iff,
  str_eq, lookup-del, Option-cases, Bool-cases,
}
use fleeting_plugin_vcd.Instance.{Instance}
use fleeting_plugin_vcd.Store.{Store, write, assign}
use fleeting_plugin_vcd.Store.Ops.{link, update_instance}
use fleeting_plugin_vcd.Store.Index.{IsWellFormed}
use fleeting_plugin_vcd.Store.Index.Update.{
  link-bare, link-new, link-same, link-oust, KeepsKeys, update_instance-IsWellFormed,
}
use fleeting_plugin_vcd.Store.Phases.{
  is_unmade, unmade, phase_of, IsSound, Alike, IsQuiet, IsQuiet-refl,
}

-- A key of the primary map after `link`: as it was, or dropped with another instance that has the
-- same HREF.
abbrev Relinked : ℕ → String → Store → Store → Type 0
Relinked p k s t =
    (lookup k t.instances ≡ lookup k s.instances)
    ⊎ ((lookup k t.instances ≡ none)
        × ((e : ℕ) × (lookup k s.instances ≡ some e) × (e ≢ p) × ((s.cell e).id ≢ "")))

link-Relinked :
    (s : Store) (w : IsWellFormed s) (p : ℕ) (i : Instance) (k : String)
    → let t = link p (assign s p i) in (t.cell ≡ write s.cell p i) × Relinked p k s t
link-Relinked s w p i k = elim (Bool-cases (str_eq i.id "")) [
  | inl bare ↦ rw (link-bare s p i ((eq_iff i.id "").0 bare)) (refl, inl refl)
  | inr named ↦
      let ne : i.id ≢ "" = ground (arith, eq_iff i.id "") in
      elim (Option-cases (lookup i.id s.by_vapp_href)) [
        | inl new ↦ rw (link-new s p i ne new) (refl, inl refl)
        | inr (e, dup) ↦ elim (Bool-cases (e == p)) [
          | inl same ↦ rw (link-same s p i ne (ground arith)) (refl, inl refl)
          | inr other ↦ rw (link-oust s p i e ne (ground arith) dup) (
            refl,
            elim (Bool-cases (str_eq (s.cell e).intent_id k)) [
              | inl hit ↦ inr (
                ground (arith, lookup-del (s.cell e).intent_id k s.instances),
                (
                  e,
                  rw⁻¹ ((eq_iff (s.cell e).intent_id k).0 hit) (w.tracked i.id e dup),
                  ground arith,
                  ground (arith, w.indexed i.id e dup),
                ),
              )
              | inr apart ↦ inl (ground (arith, lookup-del (s.cell e).intent_id k s.instances))
            ],
          )
        ]
      ]
]

module _ (id : String) (fn : Instance → Instance) (now : ℕ) (s : Store) (sound : IsSound s) where
  -- The update of the instance behind `p`.
  module _ (p : ℕ) (held : lookup id s.instances ≡ some p)
      (keeps : KeepsKeys (fn (s.cell p)) (s.cell p))
      (bare : (is_unmade (fn (s.cell p)).phase ≡ false) ⊎ ((fn (s.cell p)).id ≡ "")) where
    abbrev after : Store
    after = update_instance id fn now s

    after-link : after ≡ link p (assign s p (record (fn (s.cell p)) { last_updated = some now }))
    unfolding update_instance
    after-link = rw (held, update_instance) refl

    after-Relinked :
        (k : String)
        → (after.cell ≡ write s.cell p (record (fn (s.cell p)) { last_updated = some now }))
          × Relinked p k s after
    after-Relinked k =
        rw after-link
          (link-Relinked s sound.well p (record (fn (s.cell p)) { last_updated = some now }) k)

    pub after-IsSound : IsSound after
    after-IsSound = record {
      well = update_instance-IsWellFormed id fn now s sound.well (λ q e.
          subst (λ x. KeepsKeys (fn (s.cell x)) (s.cell x)) (ground (arith, held, e)) keeps);
      bare = λ k q e. ground (arith, after-Relinked k, sound.bare k q);
    }

    -- Its own intent ID has the new phase.
    pub phase-after : phase_of after id ≡ some (fn (s.cell p)).phase
    phase-after = ground (arith, after-Relinked id, sound.bare id p)

    -- Any other keeps its phase, or loses an instance that is not unmade.
    pub others-Alike : (k : String) → k ≢ id → Alike (phase_of after k) (phase_of s k)
    others-Alike k ne = elim (Option-cases (lookup k s.instances)) [
      | inl missing ↦ ground (arith, after-Relinked k, missing)
      | inr (q, at_q) ↦ ground (
        arith,
        after-Relinked k,
        at_q,
        sound.well.named k q at_q,
        sound.well.named id p held,
        sound.bare k q at_q,
      )
    ]

  -- There is no such intent ID.
  pub update_absent : lookup id s.instances ≡ none → update_instance id fn now s ≡ s
  unfolding update_instance
  update_absent missing = rw (missing, update_instance) refl

  -- An update of an instance that is not unmade, into such a phase.
  pub update_instance-IsQuiet :
      unmade (phase_of s id) ≡ false
      → ((i : Instance) → ((fn i).id ≡ i.id) × ((fn i).intent_id ≡ i.intent_id))
      → ((i : Instance) → is_unmade (fn i).phase ≡ false)
      → IsQuiet s (update_instance id fn now s)
  update_instance-IsQuiet made same out = elim (Option-cases (lookup id s.instances)) [
    | inl missing ↦ rw (update_absent missing) (IsQuiet-refl s sound)
    | inr (p, held) ↦
        let (at_id, at_intent) = same (s.cell p) in
        let keeps : KeepsKeys (fn (s.cell p)) (s.cell p) = (at_intent, inl at_id) in
        (
          after-IsSound p held keeps (inl (out (s.cell p))),
          λ k. elim (Bool-cases (str_eq k id)) [
            | inl own ↦ rw ((eq_iff k id).0 own) (
                ground
                  (arith, made, phase-after p held keeps (inl (out (s.cell p))), out (s.cell p)))
            | inr apart ↦
                others-Alike p held keeps (inl (out (s.cell p))) k (ground (arith, eq_iff k id))
          ],
        )
  ]
