-- ===== src/Reconciler/Poll/Queued.antt =====
-- reconciler.go, `pollVCD`: the rounds of its loop that queue a vApp for deletion.
use fleeting_plugin_vcd.Base.{
  ℕ, ◌≡◌, ◌≢◌, subst, ◌⊎◌, String, true, false, inl, inr, none, some, List, [], ◌∷◌, lookup, arith,
  eq_iff, str_eq, lookup-put, Bool-cases,
}
use fleeting_plugin_vcd.Instance.{pending_delete}
use fleeting_plugin_vcd.Store.{Store, get_by_vapp_href}
use fleeting_plugin_vcd.Store.Ops.{add_leftover, update_from_vcd, observe}
use fleeting_plugin_vcd.Store.Index.{IsWellFormed}
use fleeting_plugin_vcd.Reconciler.Poll.{VApp, PollOps, Progress, poll_vapp, poll_vapps}
use fleeting_plugin_vcd.Reconciler.Poll.Steps.{
  PollStep, stays, observes, queues, poll_vapp-PollStep, PollStep-IsWellFormed,
}
use fleeting_plugin_vcd.Reconciler.Poll.Listing.{AreFresh, AreFresh-step}

abbrev pub Among : VApp → List VApp → Type 0
Among v [] = ⊥
Among v (x ∷ xs) = (x ≡ v) ⊎ Among v xs

-- Under the HREF `h` stands an instance queued for deletion as a leftover.
abbrev pub IsQueued : String → Store → Type 0
IsQueued h s =
    (q : ℕ) × (lookup h s.by_vapp_href ≡ some q)
    × ((s.cell q).leftover ≡ true)
    × ((s.cell q).phase ≡ pending_delete)

IsQueued-step :
    {h : String} {s t : Store} (j : String)
    → PollStep h s t
    → IsWellFormed s
    → IsQueued j s
    → IsQueued j t
unfolding update_from_vcd observe add_leftover
IsQueued-step j stays w queued = queued
IsQueued-step {h} {s} j (observes o now) w (q, held, l, p) =
    (q, ground arith, ground arith, ground arith)
IsQueued-step {h} {s} j (queues name now) w (q, held, l, p) = (
  q,
  ground (arith, eq_iff h j, lookup-put h j s.next s.by_vapp_href),
  ground (arith, w.allocated (s.cell q).intent_id q, w.tracked j q),
  ground (arith, w.allocated (s.cell q).intent_id q, w.tracked j q),
)

IsQueued-loop :
    (ops : PollOps) (now : ℕ) (vs : List VApp) (s : Progress) (j : String)
    → AreFresh vs s.store
    → IsWellFormed s.store
    → IsQueued j s.store
    → IsQueued j (poll_vapps ops now vs s).store
unfolding poll_vapps
IsQueued-loop ops now [] s j f w queued = queued
IsQueued-loop ops now (v ∷ vs) s j f w queued =
    let st = poll_vapp-PollStep ops now v s in
    IsQueued-loop ops now vs (poll_vapp ops now v s) j (AreFresh-step vs st f.2)
      (PollStep-IsWellFormed st f.0 f.1 w) (IsQueued-step j st w queued)

-- The round of a vApp that is neither tracked nor owned.
IsQueued-round :
    (ops : PollOps) (now : ℕ) (v : VApp) (s : Progress)
    → lookup v.href s.store.by_vapp_href ≡ none
    → ops.owns_vapp v.name ≡ false
    → IsQueued v.href (poll_vapp ops now v s).store
unfolding poll_vapp get_by_vapp_href add_leftover
IsQueued-round ops now v s untracked unowned = (
  s.store.next,
  ground (arith, eq_iff v.href v.href, lookup-put v.href v.href s.store.next s.store.by_vapp_href),
  ground arith,
  ground arith,
)

-- A round of another HREF leaves an untracked HREF untracked.
pub untracked-step :
    {h : String} {s t : Store} (j : String)
    → PollStep h s t
    → h ≢ j
    → lookup j s.by_vapp_href ≡ none
    → lookup j t.by_vapp_href ≡ none
unfolding update_from_vcd add_leftover
untracked-step j stays ne e = e
untracked-step {h} {s} j (observes o now) ne e = ground arith
untracked-step {h} {s} j (queues name now) ne e =
    ground (arith, eq_iff h j, lookup-put h j s.next s.by_vapp_href)

-- A round of an owned vApp leaves its HREF untracked.
pub owned-round :
    (ops : PollOps) (now : ℕ) (v : VApp) (s : Progress)
    → lookup v.href s.store.by_vapp_href ≡ none
    → ops.owns_vapp v.name ≡ true
    → (poll_vapp ops now v s).store ≡ s.store
unfolding poll_vapp get_by_vapp_href
owned-round ops now v s untracked owned = ground arith

pub queues_unowned :
    (ops : PollOps) (now : ℕ) (v : VApp) (vs : List VApp) (s : Progress)
    → Among v vs
    → AreFresh vs s.store
    → IsWellFormed s.store
    → lookup v.href s.store.by_vapp_href ≡ none
    → ops.owns_vapp v.name ≡ false
    → IsQueued v.href (poll_vapps ops now vs s).store
unfolding poll_vapps
queues_unowned ops now v [] s among f w untracked unowned = absurd among
queues_unowned ops now v (x ∷ vs) s among f w untracked unowned =
    elim (Bool-cases (str_eq x.href v.href)) [
      | inr apart ↦
          queues_unowned ops now v vs next (ground (arith, eq_iff x.href v.href)) fresh well
            (untracked-step v.href st (ground (arith, eq_iff x.href v.href)) untracked) unowned
      | inl same ↦ elim (Bool-cases (ops.owns_vapp x.name)) [
        | inl owned ↦
            queues_unowned ops now v vs next (ground arith) fresh well
              (ground (arith, eq_iff x.href v.href, owned-round ops now x s)) unowned
        | inr free ↦ IsQueued-loop ops now vs next v.href fresh well (
            subst (λ h. IsQueued h next.store) ((eq_iff _ _).0 same)
              (IsQueued-round ops now x s (ground (arith, eq_iff x.href v.href)) free))
      ]
    ]
  where
    next : Progress
    next = poll_vapp ops now x s

    st : PollStep x.href s.store next.store
    st = poll_vapp-PollStep ops now x s

    fresh : AreFresh vs next.store
    fresh = AreFresh-step vs st f.2

    well : IsWellFormed next.store
    well = PollStep-IsWellFormed st f.0 f.1 w
