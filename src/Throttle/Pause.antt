-- ===== src/Throttle/Pause.antt =====
-- throttle.go: how long a pause lasts, over any history of rejections and successes.
use fleeting_plugin_vcd.Base.{
  ℕ, ◌+◌, ◌≤◌, ◌<◌, ◌≡◌, refl, ◌⊎◌, true, false, Option, none, some, List, [], ◌∷◌, arith,
}
use fleeting_plugin_vcd.Backoff.{Backoff, IsPaced}
use fleeting_plugin_vcd.Throttle.{
  Gate, new_gate, throttled, succeeded, paused, WaitRound, wait_rounds,
}

-- What happens to a gate, oldest first.
pub data GateEvent : Type 0 where
  rejection : ℕ → GateEvent
  completion : GateEvent

-- Times do not fall along the list and stay at or below the last one.
abbrev pub Before : ℕ → List GateEvent → Type 0
Before last [] = Unit {0}
Before last (rejection t ∷ es) = (t ≤ last) × Before last es
Before last (completion ∷ es) = Before last es

module _ (b : Backoff) where
  unfoldable pub gate_step : GateEvent → Option (Gate b) → Option (Gate b)
  gate_step (rejection t) g = throttled b t g
  gate_step completion g = succeeded b g

  unfoldable pub gate_run : List GateEvent → Option (Gate b) → Option (Gate b)
  gate_run [] g = g
  gate_run (e ∷ es) g = gate_run es (gate_step e g)

  abbrev pub end : Option (Gate b) → ℕ
  end none = 0
  end (some g) = g.paused_until

  paused-end : (now : ℕ) (g : Option (Gate b)) → end g ≤ now → paused b now g ≡ false
  unfolding paused
  paused-end now none h = refl
  paused-end now (some g) h = ground arith

  module _ (lo hi : ℕ) (paced : IsPaced b lo hi) where
    step_bounded :
        (last : ℕ) (e : GateEvent) (g : Option (Gate b))
        → Before last (e ∷ [])
        → end g ≤ last + hi
        → end (gate_step e g) ≤ last + hi
    unfolding gate_step throttled succeeded
    step_bounded last (rejection t) none h le = omega arith
    step_bounded last (rejection t) (some g) h le = ground (arith, paced g.bo)
    step_bounded last completion none h le = le
    step_bounded last completion (some g) h le = le

    run_bounded :
        (last : ℕ) (es : List GateEvent) (g : Option (Gate b))
        → Before last es
        → end g ≤ last + hi
        → end (gate_run es g) ≤ last + hi
    unfolding gate_run
    run_bounded last [] g h le = le
    run_bounded last (rejection t ∷ es) g h le =
        run_bounded last es (gate_step (rejection t) g) h.1
          (step_bounded last (rejection t) g (h.0, tt) le)
    run_bounded last (completion ∷ es) g h le =
        run_bounded last es (gate_step completion g) h (step_bounded last completion g tt le)

    -- With intervals of at most `hi`, whatever rejections and completions a new gate has seen up
    -- to the time `last`, it no longer pauses from `last + hi` on.
    pub pause_ends :
        (last now : ℕ) (es : List GateEvent)
        → Before last es
        → last + hi ≤ now
        → paused b now (gate_run es (new_gate b)) ≡ false
    unfolding new_gate
    pause_ends last now es h le =
        paused-end now (gate_run es (new_gate b))
          (omega (arith, run_bounded last es (new_gate b) h (omega arith)))

    -- A rejection finds the gate paused afterwards, with intervals of at least `lo` > 0 and at most
    -- `hi`: either a pause was active and the gate is left as it was, or none was and one begins
    -- that ends between `now + lo` and `now + hi`.
    pub throttled_pauses :
        (now : ℕ) (g : Gate b)
        → 0 < lo
        → (paused b now (throttled b now (some g)) ≡ true)
          × (((paused b now (some g) ≡ true) × (throttled b now (some g) ≡ some g))
              ⊎ ((paused b now (some g) ≡ false)
                  × (now + lo ≤ end (throttled b now (some g)))
                  × (end (throttled b now (some g)) ≤ now + hi)))
    unfolding paused throttled
    throttled_pauses now g pos = ground (arith, paced g.bo)

-- The last round of a wait that went on through the rounds before it.
abbrev pub Passes : List WaitRound → Type 0
Passes [] = ⊥
Passes (r ∷ rest) =
    ((r.paused_until ≤ r.now) × (r.context ≡ none))
    ⊎ ((r.now < r.paused_until) × (r.timer ≡ none) × Passes rest)

-- A wait lets the call through only when it has seen that no pause is active.
pub wait_rounds-Passes : (rounds : List WaitRound) → wait_rounds rounds ≡ some none → Passes rounds
unfolding wait_rounds
wait_rounds-Passes [] h = absurd (ground (arith, h))
wait_rounds-Passes (r ∷ rest) h = ground (arith, h, wait_rounds-Passes rest)
