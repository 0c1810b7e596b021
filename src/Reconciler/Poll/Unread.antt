-- ===== src/Reconciler/Poll/Unread.antt =====
-- vcd.go, `readListedVApps`, and reconciler.go, `pollVCD`: the vApps that vCD lists but that could
-- not be read.
use fleeting_plugin_vcd.Base.{
  ℕ, ◌≡◌, refl, sym, ◌∙◌, ap, ◌≢◌, ◌⊎◌, ◌==◌, ◌||◌, not, String, true, false, inl, inr, some, List,
  [], ◌∷◌, ◌++◌, map, lookup, arith, eq_iff, lookup-put, Bool-cases,
}
use fleeting_plugin_vcd.Instance.{Instance}
use fleeting_plugin_vcd.Store.{Store, get_by_intent_id}
use fleeting_plugin_vcd.Store.Ops.{contains, add_leftover, update_from_vcd}
use fleeting_plugin_vcd.Store.Query.{size}
use fleeting_plugin_vcd.Store.Index.{IsWellFormed, get_by_intent_id-held}
use fleeting_plugin_vcd.Store.Missing.{mark_disappeared_spares}
use fleeting_plugin_vcd.Reconciler.Poll.{
  Read, found, gone, failed, VApp, ListedVApp, read_listed_vapps, PollOps, Progress, poll_vapp,
  poll_vapps, known_hrefs, is_empty, count_missing, poll_vcd,
}
use fleeting_plugin_vcd.Reconciler.Poll.Steps.{
  PollStep, stays, observes, queues, poll_vapp-PollStep, IsFresh, PollStep-IsWellFormed,
}
use fleeting_plugin_vcd.Reconciler.Poll.Listing.{AreFresh, AreFresh-step, poll_vapps-IsWellFormed}

-- The listing has an entry with the HREF.
abbrev pub IsListed : String → List ListedVApp → Type 0
IsListed h [] = ⊥
IsListed h (x ∷ xs) = (x.href ≡ h) ⊎ IsListed h xs

pub contains-append :
    (k : String) (xs ys : List String) → contains k (xs ++ ys) ≡ contains k xs || contains k ys
unfolding contains
contains-append k [] ys = refl
contains-append k (x ∷ xs) ys = ground (arith, contains-append k xs ys)

contains-IsListed :
    (h : String) (xs : List ListedVApp) → IsListed h xs → contains h (map (λ l. l.href) xs) ≡ true
unfolding contains
contains-IsListed h [] listed = absurd listed
contains-IsListed h (x ∷ xs) listed = ground (arith, eq_iff x.href h, contains-IsListed h xs)

-- What vCD is relied on: reading an HREF gives the vApp with that HREF.
abbrev pub IsFaithful : (String → Read VApp) → Type 0
IsFaithful read = (h : String) (v : VApp) → read h ≡ found v → v.href ≡ h

Read-cases {ℓ} : {A : Type ℓ} (r : Read A) → ((a : A) × (r ≡ found a)) ⊎ (r ≡ gone) ⊎ (r ≡ failed)
Read-cases (found a) = inl (a, refl)
Read-cases gone = inr (inl refl)
Read-cases failed = inr (inr refl)

-- Every listed HREF is known to the poll, as a vApp that was read or as an unread one, unless vCD
-- says that its vApp is gone: no failed read can make a vApp look missing.
pub listed_known :
    (read : String → Read VApp) (items : List ListedVApp) (h : String)
    → IsFaithful read
    → IsListed h items
    → read h ≢ gone
    → contains h (known_hrefs (read_listed_vapps read items).0 (read_listed_vapps read items).1)
      ≡ true
unfolding read_listed_vapps contains
listed_known read [] h faithful listed present = absurd listed
listed_known read (x ∷ xs) h faithful listed present =
    let rest = read_listed_vapps read xs in
    elim (Read-cases (read x.href)) [
      | inl (v, e) ↦
          rw (e, read_listed_vapps)
            (ground (
              arith,
              eq_iff x.href h,
              eq_iff v.href h,
              faithful x.href v e,
              contains-append h rest.1 (map (λ w. w.href) rest.0),
              contains-append h rest.1 (v.href ∷ map (λ w. w.href) rest.0),
              listed_known read xs h faithful,
            ))
      | inr (inl e) ↦ elim listed [
        | inl same ↦ absurd (present (ap read (sym same) ∙ e))
        | inr later ↦ rw (e, read_listed_vapps) (listed_known read xs h faithful later present)
      ]
      | inr (inr e) ↦
          rw (e, read_listed_vapps)
            (ground (
              arith,
              eq_iff x.href h,
              contains-append h (map (λ l. l.href) xs) [],
              contains-IsListed h xs,
            ))
    ]

-- A round of another HREF leaves an instance as it is.
PollStep-apart :
    {h : String} {s t : Store} (k : String) (p : ℕ)
    → PollStep h s t
    → h ≢ (s.cell p).id
    → IsFresh h s
    → IsWellFormed s
    → lookup k s.instances ≡ some p
    → (lookup k t.instances ≡ some p) × (t.cell p ≡ s.cell p)
unfolding update_from_vcd add_leftover
PollStep-apart k p stays ne f w e = (e, refl)
PollStep-apart {h} {s} k p (observes o now) ne f w e = ground (arith, w.indexed h p)
PollStep-apart {h} {s} k p (queues name now) ne f w e =
    ground (arith, eq_iff h k, lookup-put h k s.next s.instances, w.allocated k p)

-- No vApp that was read has the HREF.
abbrev pub IsUnseen : String → List VApp → Type 0
IsUnseen h [] = Unit
IsUnseen h (v ∷ vs) = (v.href ≢ h) × IsUnseen h vs

poll_vapps-apart :
    (ops : PollOps) (now : ℕ) (vs : List VApp) (s : Progress) (k : String) (p : ℕ) (i : Instance)
    → IsUnseen i.id vs
    → AreFresh vs s.store
    → IsWellFormed s.store
    → lookup k s.store.instances ≡ some p
    → s.store.cell p ≡ i
    → let t = (poll_vapps ops now vs s).store in (lookup k t.instances ≡ some p) × (t.cell p ≡ i)
unfolding poll_vapps
poll_vapps-apart ops now [] s k p i u f w e at_p = (e, at_p)
poll_vapps-apart ops now (v ∷ vs) s k p i u f w e at_p =
    let st = poll_vapp-PollStep ops now v s in
    let (held, same) = PollStep-apart k p st (λ eq. u.0 (eq ∙ ap (λ j. j.id) at_p)) f.1 w e in
    poll_vapps-apart ops now vs (poll_vapp ops now v s) k p i u.1 (AreFresh-step vs st f.2)
      (PollStep-IsWellFormed st f.0 f.1 w) held (same ∙ at_p)

-- In a well-formed store, a poll of vApps with fresh HREFs that lists the vApp of an instance but
-- cannot read it leaves the instance exactly as it is: the miss counter neither grows nor is reset.
pub poll_vcd_keeps_unread :
    (ops : PollOps) (now : ℕ) (vapps : List VApp) (unread : List String) (s : Store) (k : String)
    (i : Instance)
    → IsWellFormed s
    → AreFresh vapps s
    → get_by_intent_id s k ≡ some i
    → contains i.id unread ≡ true
    → IsUnseen i.id vapps
    → get_by_intent_id (poll_vcd ops now (some (vapps, unread)) s).0 k ≡ some i
unfolding poll_vcd count_missing
poll_vcd_keeps_unread ops now vapps unread s k i w f e listed u =
    let (p, held, at_p) = get_by_intent_id-held s k i e in
    let start : Progress = record { store = s; skip_vm_reads = false } in
    let t : Store = (poll_vapps ops now vapps start).store in
    let (held', same) = poll_vapps-apart ops now vapps start k p i u f w held at_p in
    let kept : get_by_intent_id t k ≡ some i = unfold get_by_intent_id in ground arith in
    let known : contains i.id (known_hrefs vapps unread) ≡ true =
      ground (arith, contains-append i.id unread (map (λ v. v.href) vapps)) in
    elim (Bool-cases (not (is_empty (known_hrefs vapps unread)) || size t == 0)) [
      | inl counted ↦ rw counted (
          mark_disappeared_spares (known_hrefs vapps unread) now t k i
            (poll_vapps-IsWellFormed ops now vapps start f w) kept (inl known))
      | inr skipped ↦ rw skipped kept
    ]
