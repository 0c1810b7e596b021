-- ===== src/Tests/Views.antt =====
-- The debug page's list and the poll's listing at concrete values: debug.go, vcd.go.
use fleeting_plugin_vcd.Base.{
  ◌≡◌, ◌↔◌, ◌⊎◌, String, str_eq, Bool, false, true, some, List, [], ◌∷◌, length, Among,
}
use fleeting_plugin_vcd.Debug.View.{InstanceView, is_shown, instances}
use fleeting_plugin_vcd.Debug.View.Shown.{IsRowOf, instances-exact}
use fleeting_plugin_vcd.Debug.View.Sorted.{IsOrdered}
use fleeting_plugin_vcd.Discovery.{get_instances_in_instance_group, listing_of}
use fleeting_plugin_vcd.Discovery.Safe.{AreAnswered, logged, listing_calls, poll_after_listing}
use fleeting_plugin_vcd.Reconciler.Poll.{
  Read, gone, failed, VApp, ListedVApp, PollOps, listing_failed, read_listed_vapps, poll_vcd,
}
use fleeting_plugin_vcd.Store.{get_all}
use fleeting_plugin_vcd.Store.Query.{tally}
use fleeting_plugin_vcd.Tests.Creation.{vcd, idle}
use fleeting_plugin_vcd.Tests.Store.{made}
use fleeting_plugin_vcd.Vcd.{Request, reads, Env}
use fleeting_plugin_vcd.Vcd.Plans.{changes}

instances-exact_example :
    IsOrdered (instances true "Running" made)
    × ((v : InstanceView)
        → Among v (instances true "Running" made) ↔ IsRowOf true "Running" v (get_all made))
    × (length (instances true "Running" made) ≡ tally (is_shown true "Running") (get_all made))
instances-exact_example = instances-exact true "Running" made

-- The search fails.
abbrev searches : Request → Bool
searches (reads name) = str_eq name "SearchByFilter"
searches _ = false

abbrev blind : Env
blind = vcd searches "timeout"

abbrev hits : List Request → List ListedVApp
hits log = record { href = "https://vcd/vapp-1"; name = "runner-1" } ∷ []

abbrev vapp_reads : String → Read VApp
vapp_reads href = failed

abbrev ops : PollOps
ops = record { owns_vapp = λ name. false; poll_vm = λ href. gone }

poll_after_listing_example :
    let (r, w') = get_instances_in_instance_group blind hits vapp_reads idle in
    (changes w'.log ≡ changes idle.log)
    × ((AreAnswered blind listing_calls idle.log
          × (listing_of r
              ≡ some (read_listed_vapps vapp_reads (hits (logged blind listing_calls idle.log)))))
        ⊎ ((¬ AreAnswered blind listing_calls idle.log)
            × (poll_vcd ops 50 (listing_of r) made ≡ (made, some listing_failed))))
poll_after_listing_example = poll_after_listing blind hits vapp_reads ops 50 made idle
