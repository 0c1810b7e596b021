-- ===== src/Reconciler/Hold/Release.antt =====
-- reconciler.go, `updateStartupHold`: when creates are released after a start.
use fleeting_plugin_vcd.Base.{
  ℕ, ◌+◌, ◌≤◌, ◌≡◌, refl, leb, ◌==◌, if◌then◌else◌, Bool, not, ◌&&◌, ◌||◌, List, [], ◌∷◌, arith,
}
use fleeting_plugin_vcd.Backoff.{Backoff}
use fleeting_plugin_vcd.Instance.{deleted, phase_eq, Instance}
use fleeting_plugin_vcd.Reconciler.{Reconciler}
use fleeting_plugin_vcd.Reconciler.Hold.{progress_of, leftover_progress, update_startup_hold}
use fleeting_plugin_vcd.Semaphore.{Semaphore}
use fleeting_plugin_vcd.Store.{get_all}
use fleeting_plugin_vcd.Store.Query.{tally, leftover_count}

progress_of-tally :
    (is : List Instance)
    → (progress_of is).0 ≡ tally (λ i. i.leftover && not (phase_eq i.phase deleted)) is
unfolding progress_of tally
progress_of-tally [] = refl
progress_of-tally (i ∷ is) = ground (arith, progress_of-tally is)

going-progress_of : (is : List Instance) → (progress_of is).1 ≤ (progress_of is).0
unfolding progress_of
going-progress_of [] = omega arith
going-progress_of (i ∷ is) = ground (arith, going-progress_of is)

module _ (m : Semaphore) (tb cb : Backoff) where
  -- The leftovers that the hold waits for are those that the store counts, and those of them that
  -- are being deleted are no more.
  pub leftover_progress-leftover_count :
      (r : Reconciler m tb cb)
      → ((leftover_progress m tb cb r).0 ≡ leftover_count r.store)
        × ((leftover_progress m tb cb r).1 ≤ leftover_count r.store)
  unfolding leftover_progress leftover_count
  leftover_progress-leftover_count r =
      ground (arith, progress_of-tally (get_all r.store), going-progress_of (get_all r.store))

  -- The time from which the cleanup timeout counts: the first complete poll.
  abbrev pub cleanup_start : ℕ → Reconciler m tb cb → ℕ
  cleanup_start now r = if r.startup_polled then r.started_at else now

  pub update_startup_hold-exact :
      (now : ℕ) (poll_ok : Bool) (r : Reconciler m tb cb)
      → let s = update_startup_hold m tb cb now poll_ok r in
        (s.startup_hold ≡ (
          r.startup_hold
          && not (
              (poll_ok || r.startup_polled)
              && (leftover_count r.store == 0
                  || leb (cleanup_start now r + r.settings.startup_cleanup_timeout) now))))
        × (s.startup_polled ≡ (r.startup_polled || (r.startup_hold && poll_ok)))
        × (s ≡ record r {
          startup_hold = s.startup_hold;
          startup_polled = s.startup_polled;
          started_at = s.started_at;
          last_hold_log = s.last_hold_log;
        })
  unfolding update_startup_hold leftover_progress leftover_count
  update_startup_hold-exact now poll_ok r = ground (arith, progress_of-tally (get_all r.store))
