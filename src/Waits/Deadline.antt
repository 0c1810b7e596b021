-- ===== src/Waits/Deadline.antt =====
-- vcd_create.go, `waitTaskCompletion`: the wait ends whatever vCD answers.
use fleeting_plugin_vcd.Base.{
  ℕ, zero, suc, ◌+◌, ◌*◌, ◌≤◌, ◌<◌, ltb, ◌≢◌, inl, inr, none, some, arith, Bool-cases, String,
  Option, ◌∷◌, List,
}
use fleeting_plugin_vcd.Waits.{
  Round, Reading, task_poll_interval, task_timeout, timed_rounds, wait_task_completion,
}

-- A round whose pause is cut off ends the wait.
cut_off_ends :
    (refresh : Option String) (status e : String) (rest : List Round)
    → wait_task_completion (record { refresh = refresh; status = status; pause = some e } ∷ rest)
      ≢ none
unfolding wait_task_completion
cut_off_ends (some error) status e rest h = ground (arith, h)
cut_off_ends none status e rest h = ground (arith, h)

-- A round whose pause goes through leaves the wait to the rounds that follow.
round_ends :
    (r : Round) (rest : List Round)
    → wait_task_completion rest ≢ none
    → wait_task_completion (r ∷ rest) ≢ none
unfolding wait_task_completion
round_ends r rest more h = ground (arith, more, h)

timed_rounds_end :
    (n : ℕ) (readings : ℕ → Reading) (k deadline now : ℕ)
    → now ≤ deadline
    → deadline < now + n * task_poll_interval
    → wait_task_completion (timed_rounds n readings k deadline now) ≢ none
unfolding timed_rounds
timed_rounds_end zero readings k deadline now open_yet enough = absurd (omega arith)
timed_rounds_end (suc n) readings k deadline now open_yet enough =
    let woken = now + (readings k).took + task_poll_interval in
    elim (Bool-cases (ltb deadline woken)) [
      | inl late ↦ rw late (
          cut_off_ends (readings k).refresh (readings k).status _
            (timed_rounds n readings (k + 1) deadline woken))
      | inr early ↦
          round_ends _ (timed_rounds n readings (k + 1) deadline woken) (
            timed_rounds_end n readings (k + 1) deadline woken (ground (arith, early))
              (omega arith))
    ]

-- `waitTaskCompletion` ends after at most 1201 refreshes of the task, whatever vCD answers to them
-- and however long they take: its context ends 60 minutes after its start, and it pauses for 3
-- seconds between refreshes.
pub wait_task_completion-ends :
    (readings : ℕ → Reading) (start : ℕ)
    → wait_task_completion (timed_rounds 1201 readings 0 (start + task_timeout) start) ≢ none
wait_task_completion-ends readings start =
    timed_rounds_end 1201 readings 0 (start + task_timeout) start (omega arith) (omega arith)
