-- ===== src/Breaker.antt =====
-- reconciler.go: the circuit breaker, which stops creates after failures in a row. `cbLoggedActive`
-- only keeps a log line from repeating; it is kept because the code writes it.
pub mod Trip
use fleeting_plugin_vcd.Base.{ℕ, suc, ◌+◌, ltb, leb, if◌then◌else◌, Bool, true, false, ◌&&◌, ◌||◌}
use fleeting_plugin_vcd.Backoff.{Backoff}

abbrev pub circuit_breaker_threshold : ℕ
circuit_breaker_threshold = 3

module _ (b : Backoff) where
  pub record Breaker : Type 0 where
    pub consecutive_create_failures : ℕ
    pub circuit_breaker_until : ℕ
    pub cb_logged_active : Bool
    pub cb_backoff : b.State

  unfoldable pub new_breaker : Breaker
  new_breaker = record {
    consecutive_create_failures = 0;
    circuit_breaker_until = 0;
    cb_logged_active = false;
    cb_backoff = b.start;
  }

  -- `recordCreateFailure`
  unfoldable pub record_create_failure : ℕ → Breaker → Breaker
  record_create_failure now r =
      let r' : Breaker = record r {
        consecutive_create_failures = r.consecutive_create_failures + 1;
      } in
      if ltb r'.consecutive_create_failures circuit_breaker_threshold
        || ltb now r.circuit_breaker_until
      then r'
      else (let (cooldown, bo) = b.next_back_off r.cb_backoff in
          record r' {
            cb_backoff = bo;
            circuit_breaker_until = now + cooldown;
            cb_logged_active = false;
          })

  -- `recordCreateSuccess`
  unfoldable pub record_create_success : Breaker → Breaker
  record_create_success r = record r {
    consecutive_create_failures = 0;
    cb_backoff = b.reset r.cb_backoff;
  }

  -- The test in `dispatchCreates` that skips creates.
  unfoldable pub is_active : ℕ → Breaker → Bool
  is_active now r =
      leb circuit_breaker_threshold r.consecutive_create_failures && ltb now r.circuit_breaker_until
