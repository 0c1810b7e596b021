-- ===== src/Backoff.antt =====
-- The exponential backoff of github.com/cenkalti/backoff/v4, which throttle.go and reconciler.go
-- only call: its operations are a parameter of the model, and so is its random jitter, which is
-- part of the state. Every backoff of the program is built with `WithMaxElapsedTime(0)`, so
-- `NextBackOff` never answers `Stop`.
use fleeting_plugin_vcd.Base.{ℕ, ◌≤◌}
use native.Mathlib.Nat.{le_refl}

pub record Backoff : Type 1 where
  pub State : Type 0
  pub start : State  -- `NewExponentialBackOff(…)`
  pub next_back_off : State → ℕ × State
  pub reset : State → State

-- What the package documents of one configuration: each interval lies between the initial
-- interval less its jitter and the maximal interval plus its jitter.
abbrev pub IsPaced : Backoff → ℕ → ℕ → Type 0
IsPaced b lo hi = (s : b.State) → (lo ≤ (b.next_back_off s).0) × ((b.next_back_off s).0 ≤ hi)

-- A backoff with one fixed interval.
abbrev pub constant : ℕ → Backoff
constant n = record { State = Unit {0}; start = tt; next_back_off = λ s. (n, s); reset = λ s. s }

pub constant-IsPaced : (n : ℕ) → IsPaced (constant n) n n
constant-IsPaced n s = (le_refl n, le_refl n)
