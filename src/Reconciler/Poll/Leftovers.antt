-- ===== src/Reconciler/Poll/Leftovers.antt =====
-- reconciler.go, `pollVCD`: which vApps are queued for deletion because nothing tracks them.
use fleeting_plugin_vcd.Base.{
  ℕ, ◌≡◌, ◌≢◌, ◌⊎◌, ◌==◌, String, Bool, true, false, not, ◌||◌, inl, inr, none, some, List, [], ◌∷◌,
  map, lookup, arith, eq_iff, str_eq, Bool-cases,
}
use fleeting_plugin_vcd.Instance.{pending_delete, Instance}
use fleeting_plugin_vcd.Store.{Store, get_by_vapp_href}
use fleeting_plugin_vcd.Store.Ops.{contains, mark_disappeared}
use fleeting_plugin_vcd.Store.Missing.{mark_disappeared_spares}
use fleeting_plugin_vcd.Store.Index.{IsWellFormed, lookups_agree}
use fleeting_plugin_vcd.Store.Index.Keep.{mark_disappeared-IsWellFormed}
use fleeting_plugin_vcd.Store.Query.{size}
use fleeting_plugin_vcd.Reconciler.Poll.{
  VApp, PollOps, Progress, poll_vapp, poll_vapps, known_hrefs, count_missing, poll_vcd, is_empty,
}
use fleeting_plugin_vcd.Reconciler.Poll.Steps.{poll_vapp-PollStep}
use fleeting_plugin_vcd.Reconciler.Poll.Listing.{AreFresh, poll_vapps-IsWellFormed}
use fleeting_plugin_vcd.Reconciler.Poll.Unread.{contains-append}
use fleeting_plugin_vcd.Reconciler.Poll.Queued.{Among, untracked-step, owned-round, queues_unowned}

-- Every listed vApp at the HREF belongs to a create in flight.
abbrev pub AllOwned : (String → Bool) → String → List VApp → Type 0
AllOwned owns h [] = Unit
AllOwned owns h (x ∷ xs) = ((x.href ≢ h) ⊎ (owns x.name ≡ true)) × AllOwned owns h xs

spares_owned :
    (ops : PollOps) (now : ℕ) (h : String) (vs : List VApp) (s : Progress)
    → AllOwned ops.owns_vapp h vs
    → lookup h s.store.by_vapp_href ≡ none
    → lookup h (poll_vapps ops now vs s).store.by_vapp_href ≡ none
unfolding poll_vapps
spares_owned ops now h [] s owned untracked = untracked
spares_owned ops now h (x ∷ vs) s owned untracked =
    spares_owned ops now h vs (poll_vapp ops now x s) owned.1 (elim (Bool-cases (str_eq x.href h)) [
      | inr apart ↦
          untracked-step h (poll_vapp-PollStep ops now x s) (ground (arith, eq_iff x.href h))
            untracked
      | inl same ↦ ground (arith, eq_iff x.href h, owned-round ops now x s)
    ])

contains-map :
    (v : VApp) (vs : List VApp) → Among v vs → contains v.href (map (λ x. x.href) vs) ≡ true
unfolding contains
contains-map v [] among = absurd among
contains-map v (x ∷ vs) among = ground (arith, eq_iff x.href v.href, contains-map v vs)

-- The vApps of the listing are known to the poll.
known-Among :
    (v : VApp) (vs : List VApp) (unread : List String)
    → Among v vs
    → contains v.href (known_hrefs vs unread) ≡ true
known-Among v vs unread among =
    ground (arith, contains-append v.href unread (map (λ x. x.href) vs), contains-map v vs among)

-- Counting the misses spares an instance whose HREF is known.
spared :
    (known : List String) (now : ℕ) (s : Store) (h : String) (i : Instance)
    → IsWellFormed s
    → h ≢ ""
    → contains h known ≡ true
    → get_by_vapp_href s h ≡ some i
    → get_by_vapp_href (count_missing known now s) h ≡ some i
unfolding count_missing
spared known now s h i w ne seen e = elim (Bool-cases (not (is_empty known) || size s == 0)) [
  | inr skipped ↦ rw (skipped, count_missing) e
  | inl counted ↦
      let (own, by_intent) = (lookups_agree s h i w ne).0 e in
      rw (counted, count_missing)
        ((lookups_agree _ h i (mark_disappeared-IsWellFormed known now s w) ne).1
          (own, mark_disappeared_spares known now s i.intent_id i w by_intent (inl (rw own seen))))
]

-- In a well-formed store, a poll of vApps with fresh HREFs queues every listed vApp for deletion as
-- a leftover that is not tracked and whose name no create in flight or failed-create cleanup owns.
pub poll_vcd_queues :
    (ops : PollOps) (now : ℕ) (vapps : List VApp) (unread : List String) (s : Store) (v : VApp)
    → IsWellFormed s
    → AreFresh vapps s
    → Among v vapps
    → v.href ≢ ""
    → get_by_vapp_href s v.href ≡ none
    → ops.owns_vapp v.name ≡ false
    → (j : Instance) × (get_by_vapp_href (poll_vcd ops now (some (vapps, unread)) s).0 v.href
        ≡ some j)
      × (j.leftover ≡ true)
      × (j.phase ≡ pending_delete)
unfolding poll_vcd
poll_vcd_queues ops now vapps unread s v w f among ne untracked unowned =
    let start : Progress = record { store = s; skip_vm_reads = false } in
    let (q, held, leftover, pending) =
      queues_unowned ops now v vapps start among f w
        (unfold get_by_vapp_href in ground (arith, untracked)) unowned in
    let t : Store = (poll_vapps ops now vapps start).store in
    (
      t.cell q,
      spared (known_hrefs vapps unread) now t v.href (t.cell q)
          (poll_vapps-IsWellFormed ops now vapps start f w) ne (known-Among v vapps unread among)
          (unfold get_by_vapp_href in rw (held, get_by_vapp_href)),
      leftover,
      pending,
    )

-- A poll never tracks an HREF that was not tracked if every vApp listed at it is owned.
pub poll_vcd_spares_owned :
    (ops : PollOps) (now : ℕ) (vapps : List VApp) (unread : List String) (s : Store) (h : String)
    → AllOwned ops.owns_vapp h vapps
    → get_by_vapp_href s h ≡ none
    → get_by_vapp_href (poll_vcd ops now (some (vapps, unread)) s).0 h ≡ none
unfolding poll_vcd count_missing mark_disappeared get_by_vapp_href
poll_vcd_spares_owned ops now vapps unread s h owned untracked =
    ground (arith, spares_owned ops now h vapps (record { store = s; skip_vm_reads = false }) owned)
