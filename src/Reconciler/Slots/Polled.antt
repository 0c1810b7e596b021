-- ===== src/Reconciler/Slots/Polled.antt =====
-- reconciler.go, `reconcileOnce`: what has to go before the first create, in every state that the
-- program can reach.
use fleeting_plugin_vcd.Base.{ℕ, ◌≡◌, Bool, ◌||◌, none}
use fleeting_plugin_vcd.Backoff.{Backoff}
use fleeting_plugin_vcd.Instance.{Instance}
use fleeting_plugin_vcd.Reconciler.{Settings, Reconciler}
use fleeting_plugin_vcd.Reconciler.Cycle.{Answers, poll}
use fleeting_plugin_vcd.Reconciler.Steps.{Steps, Reachable}
use fleeting_plugin_vcd.Semaphore.{Semaphore}

module _ (m : Semaphore) (tb cb : Backoff) where
  -- What only a complete poll sets.
  abbrev pub notes_poll : Reconciler m tb cb → Bool
  notes_poll r = r.poll_complete || r.startup_polled

module _ (m : Semaphore) (tb cb rb : Backoff) (c : Settings) (at : ℕ) where
  -- A poll of vCD was complete, before which and after which the program ran any steps.
  abbrev pub AfterPoll : Reconciler m tb cb → Type 0
  AfterPoll r =
      (s : Reconciler m tb cb) × (a : Answers) × (now : ℕ) × Reachable m tb cb rb c at s
      × ((poll m tb cb a now s).1 ≡ none)
      × Steps m tb cb rb (poll m tb cb a now s).0 r
