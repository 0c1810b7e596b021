-- ===== src/Throttle.antt =====
-- throttle.go: the pause of vCD work after the organisation's operation limit is hit. A gate
-- pointer may be nil, so each method takes an `Option`, and `g.now()` is the argument `now`.
-- `time.Time{}` is 0. Metrics and logs are left out.
pub mod Pause
use fleeting_plugin_vcd.Base.{
  ℕ, ◌+◌, ltb, leb, if◌then◌else◌, String, Bool, false, Option, none, some, List, [], ◌∷◌,
}
use fleeting_plugin_vcd.Backoff.{Backoff}

module _ (b : Backoff) where
  pub record Gate : Type 0 where
    pub bo : b.State
    pub paused_until : ℕ

  -- `newThrottleGate`
  unfoldable pub new_gate : Option Gate
  new_gate = some (record { bo = b.start; paused_until = 0 })

  -- `throttled`
  unfoldable pub throttled : ℕ → Option Gate → Option Gate
  throttled now none = none
  throttled now (some g) =
      if ltb now g.paused_until
      then some g
      else (let (pause, bo) = b.next_back_off g.bo in
          some (record g { bo = bo; paused_until = now + pause }))

  -- `succeeded`
  unfoldable pub succeeded : Option Gate → Option Gate
  succeeded none = none
  succeeded (some g) = some (record g { bo = b.reset g.bo })

  -- `paused`
  unfoldable pub paused : ℕ → Option Gate → Bool
  paused now none = false
  paused now (some g) = ltb now g.paused_until

  -- `until`
  unfoldable pub until : ℕ → Option Gate → ℕ
  until now none = 0
  until now (some g) = if ltb now g.paused_until then g.paused_until else 0

-- One round of `wait`: the time, the end of the pause as other goroutines have left it, `ctx.Err()`,
-- and whether the context ends before the timer.
pub record WaitRound : Type 0 where
  pub now : ℕ
  pub paused_until : ℕ
  pub context : Option String
  pub timer : Option String

-- `wait`, of a gate that may be nil: the error of the context, or `some none` once no pause is
-- active; none where the rounds run out before it ends.
unfoldable pub wait_rounds : List WaitRound → Option (Option String)
wait_rounds [] = none
wait_rounds (r ∷ rest) =
    let later = wait_rounds rest in
    if leb r.paused_until r.now
    then some r.context
    else elim r.timer [ some e ↦ some (some e) | none ↦ later ]

unfoldable pub wait : Bool → Option String → List WaitRound → Option (Option String)
unfolding wait_rounds
wait is_nil context rounds = if is_nil then some context else wait_rounds rounds
