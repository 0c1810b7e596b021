-- ===== src/Metrics.antt =====
-- store.go, `UpdateMetrics`: the gauges of the store. The counters and histograms of metrics.go,
-- which nothing reads back, are left out.
pub mod Gauges
use fleeting_plugin_vcd.Base.{ℕ, suc, ◌+◌, List, [], ◌∷◌}
use fleeting_plugin_vcd.Instance.{
  Phase, pending_create, creating, running, pending_delete, deleting, deleted, Instance,
}
use fleeting_plugin_vcd.Store.{Store, get_all}

-- The map `counts`: one key for each phase.
pub record PhaseCounts : Type 0 where
  pub in_pending_create : ℕ
  pub in_creating : ℕ
  pub in_running : ℕ
  pub in_pending_delete : ℕ
  pub in_deleting : ℕ
  pub in_deleted : ℕ

-- `counts[phase]++`
unfoldable pub count_phase : Phase → PhaseCounts → PhaseCounts
count_phase pending_create c = record c { in_pending_create = suc c.in_pending_create }
count_phase creating c = record c { in_creating = suc c.in_creating }
count_phase running c = record c { in_running = suc c.in_running }
count_phase pending_delete c = record c { in_pending_delete = suc c.in_pending_delete }
count_phase deleting c = record c { in_deleting = suc c.in_deleting }
count_phase deleted c = record c { in_deleted = suc c.in_deleted }

-- The loop over the instances: the total and the counts.
unfoldable pub count_instances : List Instance → ℕ → PhaseCounts → ℕ × PhaseCounts
unfolding count_phase
count_instances [] total c = (total, c)
count_instances (i ∷ is) total c = count_instances is (suc total) (count_phase i.phase c)

-- The gauges: `StateManagerInstancesTotal`, and `StateManagerInstancesByState` for each state.
pub record StoreGauges : Type 0 where
  pub total : ℕ
  pub state_creating : ℕ
  pub state_running : ℕ
  pub state_deleting : ℕ
  pub state_deleted : ℕ

abbrev pub no_counts : PhaseCounts
no_counts = record {
  in_pending_create = 0;
  in_creating = 0;
  in_running = 0;
  in_pending_delete = 0;
  in_deleting = 0;
  in_deleted = 0;
}

-- `fleetingStateMap`, and the sums over it.
unfoldable pub gauges_of : ℕ × PhaseCounts → StoreGauges
gauges_of (total, c) = record {
  total = total;
  state_creating = c.in_pending_create + c.in_creating;
  state_running = c.in_running;
  state_deleting = c.in_pending_delete + c.in_deleting;
  state_deleted = c.in_deleted;
}

-- `UpdateMetrics`
unfoldable pub update_metrics : Store → StoreGauges
unfolding gauges_of count_instances
update_metrics s = gauges_of (count_instances (get_all s) 0 no_counts)
