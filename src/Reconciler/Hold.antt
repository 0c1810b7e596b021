-- ===== src/Reconciler/Hold.antt =====
-- reconciler.go, `updateStartupHold` and `leftoverProgress`: creates are held after a start until
-- the vApps of the previous run are gone. Only logs read `lastHoldLog`, which is kept as the code
-- writes it.
pub mod Release
use fleeting_plugin_vcd.Base.{
  ℕ, suc, ◌+◌, leb, ◌==◌, if◌then◌else◌, Bool, true, false, not, ◌&&◌, ◌||◌, List, [], ◌∷◌,
}
use fleeting_plugin_vcd.Backoff.{Backoff}
use fleeting_plugin_vcd.Instance.{deleting, deleted, phase_eq, Instance}
use fleeting_plugin_vcd.Reconciler.{Reconciler}
use fleeting_plugin_vcd.Semaphore.{Semaphore}
use fleeting_plugin_vcd.Store.{get_all}
use fleeting_plugin_vcd.Store.Ops.{minute}

abbrev pub hold_log_interval : ℕ
hold_log_interval = minute

-- The loop of `leftoverProgress`: how many leftovers remain, and how many of those are going.
unfoldable pub progress_of : List Instance → ℕ × ℕ
progress_of [] = (0, 0)
progress_of (i ∷ is) =
    let (remaining, going) = progress_of is in
    if not i.leftover || phase_eq i.phase deleted
    then (remaining, going)
    else (suc remaining, if phase_eq i.phase deleting then suc going else going)

module _ (m : Semaphore) (tb cb : Backoff) where
  -- `leftoverProgress`
  unfoldable pub leftover_progress : Reconciler m tb cb → ℕ × ℕ
  unfolding progress_of
  leftover_progress r = progress_of (get_all r.store)

  -- `endStartupHold`
  unfoldable pub end_startup_hold : Reconciler m tb cb → Reconciler m tb cb
  end_startup_hold r = record r { startup_hold = false }

  -- A progress line is logged at most once in `holdLogInterval`.
  unfoldable pub log_hold : ℕ → Reconciler m tb cb → Reconciler m tb cb
  log_hold now r =
      if leb (r.last_hold_log + hold_log_interval) now then record r { last_hold_log = now } else r

  -- The first complete poll starts the clock of the cleanup.
  unfoldable pub start_cleanup : ℕ → Bool → Reconciler m tb cb → Reconciler m tb cb
  start_cleanup now poll_ok r =
      if poll_ok && not r.startup_polled
      then record r { startup_polled = true; started_at = now; last_hold_log = now }
      else r

  -- `updateStartupHold`
  unfoldable pub update_startup_hold : ℕ → Bool → Reconciler m tb cb → Reconciler m tb cb
  unfolding end_startup_hold log_hold start_cleanup
  update_startup_hold now poll_ok r =
      if not r.startup_hold
      then r
      else (let s = start_cleanup now poll_ok r in
          if not s.startup_polled
          then log_hold now s
          else if (leftover_progress s).0 == 0
              || leb (s.started_at + s.settings.startup_cleanup_timeout) now
          then end_startup_hold s
          else log_hold now s)
