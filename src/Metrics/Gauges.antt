-- ===== src/Metrics/Gauges.antt =====
-- store.go, `UpdateMetrics`: what the gauges add up to.
use fleeting_plugin_vcd.Base.{ℕ, suc, ◌+◌, ◌≡◌, not, if◌then◌else◌, List, [], ◌∷◌, arith}
use fleeting_plugin_vcd.Instance.{
  Phase, pending_create, creating, running, pending_delete, deleting, deleted, phase_eq, Instance,
}
use fleeting_plugin_vcd.Metrics.{
  PhaseCounts, count_phase, count_instances, gauges_of, no_counts, update_metrics,
}
use fleeting_plugin_vcd.Provider.{update, state_running}
use fleeting_plugin_vcd.Provider.Reports.{update-exact}
use fleeting_plugin_vcd.Store.{Store, get_all}
use fleeting_plugin_vcd.Store.Query.{tally, size, leftover_count}

-- The counts of the phases in which an instance is not deleted.
abbrev present_counts : PhaseCounts → ℕ
present_counts c =
    c.in_pending_create + c.in_creating + c.in_running + c.in_pending_delete + c.in_deleting

count_phase-sum :
    (p : Phase) (c : PhaseCounts)
    → (present_counts (count_phase p c) + (count_phase p c).in_deleted
        ≡ suc (present_counts c + c.in_deleted))
      × (present_counts (count_phase p c)
          ≡ (if phase_eq p deleted then present_counts c else suc (present_counts c)))
unfolding count_phase
count_phase-sum pending_create c = (omega arith, omega arith)
count_phase-sum creating c = (omega arith, omega arith)
count_phase-sum running c = (omega arith, omega arith)
count_phase-sum pending_delete c = (omega arith, omega arith)
count_phase-sum deleting c = (omega arith, omega arith)
count_phase-sum deleted c = (omega arith, omega arith)

count_instances-sum :
    (is : List Instance) (total : ℕ) (c : PhaseCounts)
    → let (n, d) = count_instances is total c in
      (n + (present_counts c + c.in_deleted) ≡ total + (present_counts d + d.in_deleted))
      × (present_counts d ≡ present_counts c + tally (λ i. not (phase_eq i.phase deleted)) is)
unfolding count_instances tally
count_instances-sum [] total c = (omega arith, omega arith)
count_instances-sum (i ∷ is) total c =
    let (all, present) = count_instances-sum is (suc total) (count_phase i.phase c) in
    let (more, kept) = count_phase-sum i.phase c in
    (omega (arith, all, more), ground (arith, present, kept))

-- The gauges of the states add up to the gauge of the total, which counts each instance of the store
-- once: those that `Update` counts in the pool, the leftovers and the deleted ones.
pub update_metrics-total :
    (s : Store)
    → let g = update_metrics s in
      (g.total ≡ g.state_creating + g.state_running + g.state_deleting + g.state_deleted)
      × (g.total ≡ (update s).1 + leftover_count s + g.state_deleted)
unfolding update_metrics gauges_of size
update_metrics-total s =
    let (all, present) = count_instances-sum (get_all s) 0 no_counts in
    let counted = (update-exact s "" state_running).1 in
    (omega (arith, all), omega (arith, all, present, counted))
