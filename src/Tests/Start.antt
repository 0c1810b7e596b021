-- ===== src/Tests/Start.antt =====
-- provider.go: `Init` on a configuration that it accepts, and the first steps after it.
use fleeting_plugin_vcd.Base.{◌+◌, ◌≤◌, ◌<◌, ◌≡◌, refl, ◌↔◌, ◌⊎◌, some, [], ◌∷◌}
use fleeting_plugin_vcd.Config.{
  validate, populate, duration_or, below_a_day, or_default, with_defaults, reconciler_config,
  Plugin,
}
use fleeting_plugin_vcd.Config.Checks.{IsComplete}
use fleeting_plugin_vcd.Config.Durations.{HasDurations}
use fleeting_plugin_vcd.Provider.Init.{Started, started, provider_info, start, accept, init}
use fleeting_plugin_vcd.Provider.Init.Starts.{HasStaticCredentials, init-exact, init-bounded}
use fleeting_plugin_vcd.Reconciler.{new_reconciler}
use fleeting_plugin_vcd.Reconciler.Cycle.{poll, increase}
use fleeting_plugin_vcd.Reconciler.Dispatch.{dispatch_creates}
use fleeting_plugin_vcd.Reconciler.Cycle.{hold_after_poll}
use fleeting_plugin_vcd.Reconciler.Steps.{
  Steps, here, next, polls, holds, increases, starts_creates, running_creates, running_deletes,
}
use fleeting_plugin_vcd.Semaphore.{counting, counting-IsSemaphore}
use fleeting_plugin_vcd.Store.{new_store}
use fleeting_plugin_vcd.Tests.Plugin.{plugin, populated, any_url, ten_seconds}
use fleeting_plugin_vcd.Tests.Runs.{State, pace, answers}

abbrev checked : Plugin
checked = record plugin { protocol = "ssh" }

abbrev at_start : Started counting pace pace
at_start = record {
  info = record {
    id_elements =
        "vcd" ∷ plugin.org ∷ plugin.virtual_datacenter ∷ plugin.network ∷ plugin.vapp_name_prefix
        ∷ plugin.instance_group_name ∷ [];
    max_size_of_group = 128;
  };
  plugin = checked;
  populated = populated;
  reconciler =
      new_reconciler counting pace pace (with_defaults (reconciler_config populated)) new_store 0;
}

plugin-started : init counting pace pace any_url ten_seconds 0 plugin ≡ started at_start
unfolding init accept start provider_info validate populate duration_or below_a_day or_default
plugin-started = refl

init-exact_example :
    ((s : Started counting pace pace) × (init counting pace pace any_url ten_seconds 0 plugin
        ≡ started s))
    ↔ (IsComplete any_url plugin × HasStaticCredentials plugin × HasDurations ten_seconds plugin)
init-exact_example = init-exact counting pace pace any_url ten_seconds 0 plugin

abbrev looked : State
looked =
    hold_after_poll counting pace pace 1 (poll counting pace pace answers 1 at_start.reconciler).0

abbrev asked : State
asked = (increase counting pace pace (some "intent-1" ∷ []) 2 looked).0

abbrev begun : State
begun = dispatch_creates counting pace pace 3 asked

begun-Steps : Steps counting pace pace pace at_start.reconciler begun
begun-Steps =
    next (next (next (next here (polls answers 1)) (holds 1)) (increases (some "intent-1" ∷ []) 2))
      (starts_creates 3)

init-bounded_example :
    (running_creates begun.running ≤ 3)
    × (running_deletes begun.running ≤ 2)
    × (running_creates begun.running + running_deletes begun.running ≤ 6)
    × ((6 ≤ 1) ⊎ (running_deletes begun.running < 6))
unfolding or_default
init-bounded_example =
    init-bounded counting counting-IsSemaphore pace pace pace any_url ten_seconds 0 plugin at_start
      begun plugin-started begun-Steps
