-- ===== src/Call.antt =====
-- vcd_safe.go: how a call of vCD is attempted again; throttle.go: the errors that it waits out. What
-- an attempt answers, and what the waits and renewals after it answer, is an argument:
-- a list of the answers to come, which the calls use up from the front. Metrics, logs and the
-- functions that restore an SDK object after a failure are left out, and
-- so is the text by which a failed wait or renewal extends an error.
pub mod Replays
use fleeting_plugin_vcd.Base.{
  ℕ, suc, ◌+◌, leb, if◌then◌else◌, String, Bool, true, false, ◌&&◌, ◌||◌, Option, none, some, List,
  [], ◌∷◌,
}
use fleeting_plugin_vcd.Backoff.{Backoff}
use fleeting_plugin_vcd.Throttle.{Gate, throttled}
use fleeting_plugin_vcd.Text.{contains_text}

-- An error: its text in lower case, and whether the pattern `unauthorizedStatus` matches it.
pub record Failure : Type 0 where
  pub lowered : String
  pub unauthorized : Bool

-- `permanentErrorPatterns`, in lower case.
abbrev pub permanent_error_patterns : List String
permanent_error_patterns =
    "exceed the vdc's storage quota" ∷ "entity does not exist" ∷ "unable to perform this action"
    ∷ "already exists" ∷ []

unfoldable pub matches_any : List String → String → Bool
matches_any [] msg = false
matches_any (pattern_text ∷ rest) msg =
    let later = matches_any rest msg in if contains_text msg pattern_text then true else later

-- `isPermanentError`
unfoldable pub is_permanent_error : Failure → Bool
unfolding matches_any
is_permanent_error f = matches_any permanent_error_patterns f.lowered

-- `isOperationLimitError`
unfoldable pub is_operation_limit_error : Failure → Bool
is_operation_limit_error f = contains_text f.lowered "maximum number of simultaneous operations"

module _ {ℓ} (A : Type ℓ) where
  -- The answer to one `vcdCallAttempt`: for a failure also when it came, how a wait for the
  -- throttle gate after it ends, and how a renewal of the session after it ends.
  pub data Attempt : Type ℓ where
    answers : A → Attempt
    fails : Failure → (at : ℕ) → (wait renewal : Option String) → Attempt

  -- How the function `op` of `vcdCall` ends: `stops` is a `backoff.Permanent` error.
  pub data Outcome : Type ℓ where
    returns : A → Outcome
    stops : Failure → Outcome
    errs : Failure → Outcome

  -- An outcome with the number of attempts made.
  pub record Ended (tb : Backoff) : Type ℓ where
    pub outcome : Outcome
    pub attempts : ℕ
    pub gate : Option (Gate tb)

abbrev pub is_some {ℓ} : {A : Type ℓ} → Option A → Bool
is_some none = false
is_some (some _) = true

module _ {ℓ} {A : Type ℓ} (tb : Backoff) where
  -- The test at the end of `op`.
  unfoldable pub settle_failure : Failure → Outcome A
  settle_failure f = if is_permanent_error f then stops f else errs f

  unfoldable pub settle : Attempt A → Outcome A
  unfolding settle_failure
  settle (answers a) = returns a
  settle (fails f at wait renewal) = settle_failure f

  -- `op` after the loop on the operation limit, given the answers still to come.
  unfoldable pub renew_and_settle :
      Bool → ℕ → Option (Gate tb) → Attempt A → List (Attempt A) → Option (Ended A tb)
  unfolding settle settle_failure
  renew_and_settle retry n gate (answers a) rest =
      some (record { outcome = returns a; attempts = n; gate = gate })
  renew_and_settle retry n gate (fails f at wait renewal) rest =
      if f.unauthorized
      then elim renewal [
        | some e ↦ some (record { outcome = errs f; attempts = n; gate = gate })
        | none ↦
            if retry
            then elim rest [
              | [] ↦ none
              | again ∷ _ ↦ some (record { outcome = settle again; attempts = suc n; gate = gate })
            ]
            else some (record { outcome = settle_failure f; attempts = n; gate = gate })
      ]
      else some (record { outcome = settle_failure f; attempts = n; gate = gate })

  -- `op` of `vcdCall`, `n` attempts having been made before; `none` where the answers run out
  -- before it ends.
  unfoldable pub op : Bool → ℕ → Option (Gate tb) → List (Attempt A) → Option (Ended A tb)
  unfolding renew_and_settle
  op retry n gate [] = none
  op retry n gate (answers a ∷ rest) =
      some (record { outcome = returns a; attempts = suc n; gate = gate })
  op retry n gate (fails f at wait renewal ∷ rest) =
      let paused_gate = throttled tb at gate in
      let more = op retry (suc n) paused_gate rest in
      if is_some gate && is_operation_limit_error f
      then elim wait [
        | some e ↦ some (record { outcome = stops f; attempts = suc n; gate = paused_gate })
        | none ↦ more
      ]
      else renew_and_settle retry (suc n) gate (fails f at wait renewal) rest

  -- `singleVCDCall`
  unfoldable pub single_vcd_call : Option (Gate tb) → List (Attempt A) → Option (Ended A tb)
  unfolding op
  single_vcd_call gate attempts = op false 0 gate attempts
