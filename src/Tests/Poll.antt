-- ===== src/Tests/Poll.antt =====
-- reconciler.go, `pollVCD`, on a concrete listing.
use fleeting_plugin_vcd.Base.{
  String, if◌then◌else◌, ◌≡◌, refl, ◌≢◌, ◌⊎◌, true, inl, inr, none, some, List, [], ◌∷◌, arith,
  str_eq, eq_iff, lookup, put,
}
use fleeting_plugin_vcd.Instance.{pending_delete, Instance}
use fleeting_plugin_vcd.Store.{new_store, get_by_intent_id, get_by_vapp_href}
use fleeting_plugin_vcd.Store.Ops.{contains, add_create_intent, update_instance}
use fleeting_plugin_vcd.Store.Index.Reach.{Methods-IsWellFormed}
use fleeting_plugin_vcd.Reconciler.Poll.{
  Read, found, gone, ListedVApp, read_listed_vapps, VApp, PollOps, failed, known_hrefs, poll_vcd,
}
use fleeting_plugin_vcd.Reconciler.Poll.Listing.{AreFresh, Disappeared, phase-poll_vcd}
use fleeting_plugin_vcd.Reconciler.Poll.Unread.{
  IsFaithful, IsUnseen, listed_known, poll_vcd_keeps_unread,
}
use fleeting_plugin_vcd.Reconciler.Poll.Leftovers.{AllOwned, poll_vcd_queues, poll_vcd_spares_owned}
use fleeting_plugin_vcd.Reconciler.Finish.{record_created}
use fleeting_plugin_vcd.Tests.Store.{
  vapp_1, made, made-Methods, made_instance, made_lookup, vapp_1_named,
}

-- A create whose vApp is named "mine" is in flight.
abbrev ops : PollOps
ops = record { owns_vapp = λ name. str_eq name "mine"; poll_vm = λ href. failed }

abbrev tracked_vapp : VApp
tracked_vapp = record {
  href = "https://vcd/vapp-1";
  name = "runner-1";
  status = "POWERED_ON";
  vms = [];
}

abbrev stray_vapp : VApp
stray_vapp = record { href = "https://vcd/stray"; name = "old"; status = "POWERED_ON"; vms = [] }

abbrev own_vapp : VApp
own_vapp = record { href = "https://vcd/own"; name = "mine"; status = "POWERED_ON"; vms = [] }

abbrev vapps : List VApp
vapps = tracked_vapp ∷ stray_vapp ∷ own_vapp ∷ []

stray_named : stray_vapp.href ≢ ""
stray_named e = ground (arith, e, eq_iff stray_vapp.href "")

own_named : own_vapp.href ≢ ""
own_named e = ground (arith, e, eq_iff own_vapp.href "")

vapps-AreFresh : AreFresh vapps made
unfolding put lookup add_create_intent new_store record_created update_instance
vapps-AreFresh = (
  vapp_1_named,
  (λ e. ground (arith, e)),
  (stray_named, (λ e. refl), (own_named, (λ e. refl), tt)),
)

phase-poll_vcd_example :
    (j : Instance) × (get_by_intent_id (poll_vcd ops 90 (some (vapps, [])) made).0 "intent-1"
      ≡ some j)
    × (j.id ≡ made_instance.id)
    × ((j.phase ≡ made_instance.phase) ⊎ Disappeared (known_hrefs vapps []) made_instance j)
phase-poll_vcd_example =
    phase-poll_vcd ops 90 vapps [] made "intent-1" made_instance (Methods-IsWellFormed made-Methods)
      vapps-AreFresh made_lookup

stray_untracked : get_by_vapp_href made stray_vapp.href ≡ none
unfolding put lookup add_create_intent new_store record_created update_instance get_by_vapp_href
stray_untracked = refl

poll_vcd_queues_example :
    (j : Instance) × (get_by_vapp_href (poll_vcd ops 90 (some (vapps, [])) made).0 stray_vapp.href
      ≡ some j)
    × (j.leftover ≡ true)
    × (j.phase ≡ pending_delete)
poll_vcd_queues_example =
    poll_vcd_queues ops 90 vapps [] made stray_vapp (Methods-IsWellFormed made-Methods)
      vapps-AreFresh (inr (inl refl)) stray_named stray_untracked refl

own_untracked : get_by_vapp_href made "https://vcd/own" ≡ none
unfolding put lookup add_create_intent new_store record_created update_instance get_by_vapp_href
own_untracked = refl

all_owned : AllOwned ops.owns_vapp "https://vcd/own" vapps
all_owned = (
  inl (λ e. ground (arith, e, eq_iff tracked_vapp.href own_vapp.href)),
  (inl (λ e. ground (arith, e, eq_iff stray_vapp.href own_vapp.href)), (inr refl, tt)),
)

poll_vcd_spares_owned_example :
    get_by_vapp_href (poll_vcd ops 90 (some (vapps, [])) made).0 "https://vcd/own" ≡ none
poll_vcd_spares_owned_example =
    poll_vcd_spares_owned ops 90 vapps [] made "https://vcd/own" all_owned own_untracked

-- The read of a listed vApp, all of which fail but one.
abbrev read : String → Read VApp
read href = if str_eq href "https://vcd/vapp-1" then found tracked_vapp else failed

abbrev items : List ListedVApp
items =
    record { href = "https://vcd/vapp-1"; name = "runner-1" }
    ∷ record { href = "https://vcd/stray"; name = "old" }
    ∷ []

read-IsFaithful : IsFaithful read
read-IsFaithful h v e = ground (arith, eq_iff h "https://vcd/vapp-1")

stray_read : read "https://vcd/stray" ≢ gone
stray_read e = ground (arith, e)

listed_known_example :
    contains "https://vcd/stray"
      (known_hrefs (read_listed_vapps read items).0 (read_listed_vapps read items).1)
    ≡ true
listed_known_example =
    listed_known read items "https://vcd/stray" read-IsFaithful (inr (inl refl)) stray_read

made_unread : contains made_instance.id (vapp_1 ∷ []) ≡ true
unfolding put lookup add_create_intent new_store record_created update_instance contains
made_unread = refl

stray-AreFresh : AreFresh (stray_vapp ∷ []) made
unfolding put lookup add_create_intent new_store record_created update_instance
stray-AreFresh = (stray_named, (λ e. refl), tt)

stray_only : IsUnseen made_instance.id (stray_vapp ∷ [])
unfolding put lookup add_create_intent new_store record_created update_instance
stray_only = ((λ e. ground (arith, e, eq_iff stray_vapp.href vapp_1)), tt)

poll_vcd_keeps_unread_example :
    get_by_intent_id (poll_vcd ops 90 (some (stray_vapp ∷ [], vapp_1 ∷ [])) made).0 "intent-1"
    ≡ some made_instance
poll_vcd_keeps_unread_example =
    poll_vcd_keeps_unread ops 90 (stray_vapp ∷ []) (vapp_1 ∷ []) made "intent-1" made_instance
      (Methods-IsWellFormed made-Methods) stray-AreFresh made_lookup made_unread stray_only
