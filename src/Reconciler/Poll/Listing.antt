-- ===== src/Reconciler/Poll/Listing.antt =====
-- reconciler.go, `pollVCD`: what a whole poll does to the instances that were tracked before it.
use fleeting_plugin_vcd.Base.{
  ℕ, ◌≤◌, ◌≡◌, refl, ◌≢◌, ◌⊎◌, String, true, false, not, ◌||◌, ◌==◌, inl, inr, some, List, [], ◌∷◌,
  lookup, arith, eq_iff, Bool-cases,
}
use native.Mathlib.Nat.{le_refl}
use fleeting_plugin_vcd.Instance.{deleted, Instance}
use fleeting_plugin_vcd.Store.{Store, get_by_intent_id}
use fleeting_plugin_vcd.Store.Ops.{contains, miss}
use fleeting_plugin_vcd.Store.Missing.{get_by_intent_id-mark_disappeared, is_present}
use fleeting_plugin_vcd.Store.Index.{IsWellFormed, get_by_intent_id-held}
use fleeting_plugin_vcd.Store.Index.Keep.{miss-SameKeys}
use fleeting_plugin_vcd.Store.Query.{size}
use fleeting_plugin_vcd.Reconciler.Poll.{
  VApp, PollOps, Progress, poll_vapp, poll_vapps, known_hrefs, count_missing, poll_vcd, is_empty,
}
use fleeting_plugin_vcd.Reconciler.Poll.Steps.{
  PollStep, poll_vapp-PollStep, IsFresh, Kept, PollStep-IsWellFormed, PollStep-Kept,
  PollStep-IsFresh,
}

-- What vCD is relied on to list: vApps with an HREF, and the program to use no HREF of an untracked
-- vApp as an intent ID.
abbrev pub AreFresh : List VApp → Store → Type 0
AreFresh [] s = Unit
AreFresh (v ∷ vs) s = (v.href ≢ "") × IsFresh v.href s × AreFresh vs s

pub AreFresh-step :
    {h : String} {s t : Store} (vs : List VApp) → PollStep h s t → AreFresh vs s → AreFresh vs t
AreFresh-step [] st f = tt
AreFresh-step (v ∷ vs) st f = (f.0, PollStep-IsFresh v.href st f.1, AreFresh-step vs st f.2)

pub poll_vapps-IsWellFormed :
    (ops : PollOps) (now : ℕ) (vs : List VApp) (s : Progress)
    → AreFresh vs s.store
    → IsWellFormed s.store
    → IsWellFormed (poll_vapps ops now vs s).store
unfolding poll_vapps
poll_vapps-IsWellFormed ops now [] s f w = w
poll_vapps-IsWellFormed ops now (v ∷ vs) s f w =
    let st = poll_vapp-PollStep ops now v s in
    poll_vapps-IsWellFormed ops now vs (poll_vapp ops now v s) (AreFresh-step vs st f.2)
      (PollStep-IsWellFormed st f.0 f.1 w)

poll_vapps-Kept :
    (ops : PollOps) (now : ℕ) (vs : List VApp) (s : Progress) (k : String) (p : ℕ)
    → AreFresh vs s.store
    → IsWellFormed s.store
    → lookup k s.store.instances ≡ some p
    → let t = (poll_vapps ops now vs s).store in
      (lookup k t.instances ≡ some p) × Kept (t.cell p) (s.store.cell p)
unfolding poll_vapps
poll_vapps-Kept ops now [] s k p f w e = (e, (refl, refl, refl, le_refl _))
poll_vapps-Kept ops now (v ∷ vs) s k p f w e =
    let st = poll_vapp-PollStep ops now v s in
    let (held, kept) = PollStep-Kept k p st f.1 w e in
    let (held', kept') =
      poll_vapps-Kept ops now vs (poll_vapp ops now v s) k p (AreFresh-step vs st f.2)
        (PollStep-IsWellFormed st f.0 f.1 w) held in
    (held', ground (arith, kept, kept'))

-- How the phase may change when the known HREFs are counted.
abbrev pub Disappeared : List String → Instance → Instance → Type 0
Disappeared known i j =
    (j.phase ≡ deleted)
    × (is_present i.phase ≡ true)
    × (contains i.id known ≡ false)
    × (2 ≤ i.missed_polls)

phase-miss :
    (known : List String) (now : ℕ) (i : Instance)
    → ((miss known now i).phase ≡ i.phase) ⊎ Disappeared known i (miss known now i)
unfolding miss
phase-miss known now i = ground (arith, eq_iff i.id "")

-- The last step of the poll, after the loop.
count_missing-cases :
    (known : List String) (now : ℕ) (s : Store) (k : String) (p : ℕ)
    → IsWellFormed s
    → lookup k s.instances ≡ some p
    → (j : Instance) × (get_by_intent_id (count_missing known now s) k ≡ some j)
      × ((j ≡ s.cell p) ⊎ (j ≡ miss known now (s.cell p)))
unfolding count_missing
count_missing-cases known now s k p w held =
    let at_p : get_by_intent_id s k ≡ some (s.cell p) =
      unfold get_by_intent_id in rw (held, get_by_intent_id) in
    elim (Bool-cases (not (is_empty known) || size s == 0)) [
      | inl counted ↦ (
        miss known now (s.cell p),
        rw (counted, count_missing)
            (get_by_intent_id-mark_disappeared known now s k (s.cell p) w at_p),
        inr refl,
      )
      | inr skipped ↦ (s.cell p, rw (skipped, count_missing) at_p, inl refl)
    ]

-- In a well-formed store, a poll of vApps with fresh HREFs keeps every tracked instance, and
-- changes its phase in one case only: to Deleted, if its vApp should exist, is neither among the
-- listed vApps nor among those that could not be read, and was missing from two polls before.
pub phase-poll_vcd :
    (ops : PollOps) (now : ℕ) (vapps : List VApp) (unread : List String) (s : Store) (k : String)
    (i : Instance)
    → IsWellFormed s
    → AreFresh vapps s
    → get_by_intent_id s k ≡ some i
    → (j : Instance) × (get_by_intent_id (poll_vcd ops now (some (vapps, unread)) s).0 k ≡ some j)
      × (j.id ≡ i.id)
      × ((j.phase ≡ i.phase) ⊎ Disappeared (known_hrefs vapps unread) i j)
unfolding poll_vcd
phase-poll_vcd ops now vapps unread s k i w f e =
    let (p, held, at_p) = get_by_intent_id-held s k i e in
    let (held', kept) =
      poll_vapps-Kept ops now vapps (record { store = s; skip_vm_reads = false }) k p f w held in
    let t = (poll_vapps ops now vapps (record { store = s; skip_vm_reads = false })).store in
    let (j, at_j, which) =
      count_missing-cases (known_hrefs vapps unread) now t k p
        (poll_vapps-IsWellFormed ops now vapps (record { store = s; skip_vm_reads = false }) f w)
        held' in
    (
      j,
      at_j,
      ground (arith, miss-SameKeys (known_hrefs vapps unread) now (t.cell p)),
      ground (arith, phase-miss (known_hrefs vapps unread) now (t.cell p)),
    )
