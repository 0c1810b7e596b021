-- ===== src/Breaker/Trip.antt =====
-- reconciler.go: when the circuit breaker holds creates back, over any history of creates.
use fleeting_plugin_vcd.Base.{ℕ, ◌+◌, ◌≤◌, ◌<◌, ◌≡◌, refl, true, List, [], ◌∷◌, arith, leb}
use fleeting_plugin_vcd.Backoff.{Backoff, IsPaced}
use fleeting_plugin_vcd.Breaker.{
  Breaker, new_breaker, record_create_failure, record_create_success, is_active,
}

-- How a create ended; a failure has its time.
pub data Outcome : Type 0 where
  failure : ℕ → Outcome
  success : Outcome

-- No failure is later than `last`.
abbrev pub UpTo : ℕ → List Outcome → Type 0
UpTo last [] = Unit {0}
UpTo last (failure t ∷ es) = (t ≤ last) × UpTo last es
UpTo last (success ∷ es) = UpTo last es

-- The failures since the last success, given the number before the list; the list is oldest first.
abbrev pub streak : ℕ → List Outcome → ℕ
streak n [] = n
streak n (failure t ∷ es) = streak (n + 1) es
streak n (success ∷ es) = streak 0 es

module _ (b : Backoff) where
  unfoldable pub breaker_step : Outcome → Breaker b → Breaker b
  breaker_step (failure t) r = record_create_failure b t r
  breaker_step success r = record_create_success b r

  unfoldable pub breaker_run : List Outcome → Breaker b → Breaker b
  breaker_run [] r = r
  breaker_run (e ∷ es) r = breaker_run es (breaker_step e r)

  failures-run :
      (es : List Outcome) (r : Breaker b)
      → (breaker_run es r).consecutive_create_failures ≡ streak r.consecutive_create_failures es
  unfolding breaker_run breaker_step record_create_failure record_create_success
  failures-run [] r = refl
  failures-run (failure t ∷ es) r = ground (arith, failures-run es (record_create_failure b t r))
  failures-run (success ∷ es) r = failures-run es (record_create_success b r)

  module _ (lo hi : ℕ) (paced : IsPaced b lo hi) where
    until-run :
        (last : ℕ) (es : List Outcome) (r : Breaker b)
        → UpTo last es
        → r.circuit_breaker_until ≤ last + hi
        → (breaker_run es r).circuit_breaker_until ≤ last + hi
    unfolding breaker_run breaker_step record_create_failure record_create_success
    until-run last [] r h le = le
    until-run last (failure t ∷ es) r h le =
        until-run last es (record_create_failure b t r) h.1 (ground (arith, paced r.cb_backoff))
    until-run last (success ∷ es) r h le = until-run last es (record_create_success b r) h le

    -- Whatever outcomes a new breaker has seen, all failures by the time `last`: it holds creates
    -- back only after three failures in a row, and never from `last + hi` on, where `hi` bounds
    -- the cooldowns.
    pub active_needs_failures :
        (last now : ℕ) (es : List Outcome)
        → UpTo last es
        → is_active b now (breaker_run es (new_breaker b)) ≡ true
        → (3 ≤ streak 0 es) × (now < last + hi)
    unfolding is_active new_breaker
    active_needs_failures last now es h a =
        ground (arith, failures-run es (new_breaker b), until-run last es (new_breaker b) h)

    -- Whatever outcomes a new breaker has seen, a further failure at `now` holds creates back at
    -- `now` exactly if it is at least the third in a row, when cooldowns last at least `lo` > 0.
    pub failure_trips :
        (now : ℕ) (es : List Outcome)
        → 0 < lo
        → is_active b now (record_create_failure b now (breaker_run es (new_breaker b)))
          ≡ leb 3 (streak 0 es + 1)
    unfolding is_active new_breaker record_create_failure
    failure_trips now es pos =
        ground (
          arith,
          failures-run es (new_breaker b),
          paced (breaker_run es (new_breaker b)).cb_backoff,
        )
