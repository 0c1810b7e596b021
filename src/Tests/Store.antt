-- ===== src/Tests/Store.antt =====
-- store.go on concrete stores.
use fleeting_plugin_vcd.Base.{
  ℕ, ◌+◌, ◌<◌, leb, length, ◌↔◌, ◌≡◌, refl, ◌≢◌, String, true, inr, none, some, List, [], ◌∷◌,
  eq_iff, arith, lookup, put, del, if◌then◌else◌,
}
use fleeting_plugin_vcd.Instance.{deleted, Instance}
use fleeting_plugin_vcd.Store.{Store, new_store, get_by_intent_id, get_by_vapp_href}
use fleeting_plugin_vcd.Store.Index.Learnt.{unless_at, update_instance-found}
use fleeting_plugin_vcd.Store.Ops.{add_leftover, add_create_intent, update_instance, contains}
use fleeting_plugin_vcd.Store.Expiry.{prune, is_stale}
use fleeting_plugin_vcd.Store.Index.{IsWellFormed}
use fleeting_plugin_vcd.Store.Index.Prune.{prune_exact}
use fleeting_plugin_vcd.Store.Index.Reach.{
  Methods, idle, calls, adds_create_intent, adds_leftover, updates_instance, Methods-IsWellFormed,
  Methods-lookups_agree,
}
use fleeting_plugin_vcd.Store.Missing.{is_present, NoneSaw, mark_each, phase-mark_each}
use fleeting_plugin_vcd.Reconciler.Finish.{CreateResult, record_created}

abbrev pub result : CreateResult
result = record {
  vapp_href = "https://vcd/vapp-1";
  vapp_name = "runner-1";
  vm_name = "runner-1";
  ip_address = "10.0.0.7";
  os_type = "ubuntu64Guest";
}

-- One intent, then the same once its create has gone through.
abbrev asked : Store
asked = add_create_intent "intent-1" 10 new_store

abbrev pub made : Store
made = update_instance "intent-1" (record_created 20 result) 20 asked

pub made-Methods : Methods new_store made
unfolding lookup put add_create_intent new_store record_created
made-Methods =
    calls (calls idle (adds_create_intent "intent-1" 10 refl)) (
      updates_instance "intent-1" (record_created 20 result) 20 (λ p e. (refl, inr (ground arith))))

pub Methods-IsWellFormed_example : IsWellFormed made
Methods-IsWellFormed_example = Methods-IsWellFormed made-Methods

abbrev pub made_instance : Instance
made_instance = made.cell 0

pub made_lookup : get_by_intent_id made "intent-1" ≡ some made_instance
unfolding get_by_intent_id lookup put add_create_intent new_store record_created update_instance
made_lookup = refl

abbrev pub vapp_1 : String
vapp_1 = "https://vcd/vapp-1"

pub vapp_1_named : vapp_1 ≢ ""
vapp_1_named e = ground (arith, e, eq_iff vapp_1 "")

Methods-lookups_agree_example :
    (get_by_vapp_href made "https://vcd/vapp-1" ≡ some made_instance) ↔ (
      (made_instance.id ≡ "https://vcd/vapp-1")
      × (get_by_intent_id made made_instance.intent_id ≡ some made_instance))
Methods-lookups_agree_example =
    Methods-lookups_agree "https://vcd/vapp-1" made_instance made-Methods vapp_1_named

made_at : lookup "intent-1" made.instances ≡ some 0
unfolding lookup put add_create_intent new_store record_created update_instance
made_at = refl

prune_exact_example :
    (lookup "intent-1" (prune 30 made).instances
      ≡ (if is_stale 30 made_instance then none else some 0))
    × ((prune 30 made).cell ≡ made.cell)
prune_exact_example = prune_exact 30 made "intent-1" 0 (Methods-IsWellFormed made-Methods) made_at

-- Calls of polls that saw other vApps only.
abbrev polls : List (List String × ℕ)
polls =
    ("https://vcd/other" ∷ [], 40)
    ∷ ("https://vcd/other" ∷ [], 50)
    ∷ ("https://vcd/third" ∷ [], 60)
    ∷ []

made_id : made_instance.id ≡ "https://vcd/vapp-1"
unfolding put lookup add_create_intent new_store record_created update_instance
made_id = refl

made_named : made_instance.id ≢ ""
made_named e = ground (arith, e, made_id, eq_iff "https://vcd/vapp-1" "")

made_is_present : is_present made_instance.phase ≡ true
unfolding put lookup add_create_intent new_store record_created update_instance
made_is_present = refl

made_seen : made_instance.missed_polls < 3
unfolding put lookup add_create_intent new_store record_created update_instance
made_seen = omega arith

made_unseen : NoneSaw made_instance.id polls
unfolding put lookup add_create_intent new_store record_created update_instance contains
made_unseen = (refl, (refl, (refl, tt)))

phase-mark_each_example :
    (j : Instance) × (get_by_intent_id (mark_each polls made) "intent-1" ≡ some j)
    × (j.phase ≡ (
        if leb 3 (made_instance.missed_polls + length polls) then deleted else made_instance.phase))
phase-mark_each_example =
    phase-mark_each polls made "intent-1" made_instance (Methods-IsWellFormed made-Methods)
      made_lookup made_named made_is_present made_seen made_unseen

-- A poll took the vApp of the create that is under way for a leftover.
abbrev contested : Store
contested = (add_leftover vapp_1 "runner-1" 15 asked).0

contested-Methods : Methods new_store contested
unfolding lookup put add_create_intent new_store
contested-Methods =
    calls (calls idle (adds_create_intent "intent-1" 10 refl))
      (adds_leftover vapp_1 "runner-1" 15 vapp_1_named (λ _. refl))

abbrev wanted : Instance
wanted = contested.cell 0

abbrev given : Instance
given = record (record_created 20 result wanted) { last_updated = some 20 }

update_instance-found_example :
    (get_by_intent_id
        (update_instance "intent-1" (record_created 20 result) 20 contested)
        "intent-1"
      ≡ some given)
    × (get_by_vapp_href (update_instance "intent-1" (record_created 20 result) 20 contested) vapp_1
        ≡ some given)
    × ((k : String)
        → k ≢ "intent-1"
        → get_by_intent_id (update_instance "intent-1" (record_created 20 result) 20 contested) k
          ≡ unless_at vapp_1 (get_by_intent_id contested k))
unfolding get_by_intent_id lookup put add_create_intent add_leftover new_store record_created
update_instance-found_example =
    update_instance-found contested "intent-1" wanted (record_created 20 result) 20
      (Methods-IsWellFormed contested-Methods) refl refl vapp_1_named refl

-- The leftover is forgotten, and the create keeps its vApp.
contested_test :
    get_by_intent_id (update_instance "intent-1" (record_created 20 result) 20 contested) vapp_1
    ≡ none
unfolding get_by_intent_id lookup put add_create_intent add_leftover new_store record_created
    update_instance del
contested_test = refl
