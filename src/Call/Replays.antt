-- ===== src/Call/Replays.antt =====
-- vcd_safe.go: when a call is made again.
use fleeting_plugin_vcd.Base.{
  ℕ, zero, suc, ◌+◌, ◌≡◌, refl, ◌⊎◌, inl, inr, String, true, false, ◌&&◌, Option, none, some, List,
  [], ◌∷◌, arith, Bool-cases,
}
use fleeting_plugin_vcd.Backoff.{Backoff}
use fleeting_plugin_vcd.Throttle.{Gate, throttled}
use fleeting_plugin_vcd.Call.{
  Failure, is_operation_limit_error, Attempt, answers, fails, Ended, is_some, renew_and_settle, op,
  single_vcd_call,
}

-- The first attempts, so many of them, were rejected because of the operation limit.
abbrev pub AreRejected {ℓ} : {A : Type ℓ} → ℕ → List (Attempt A) → Type 0
AreRejected zero attempts = Unit
AreRejected (suc n) [] = ⊥
AreRejected (suc n) (answers a ∷ attempts) = ⊥
AreRejected (suc n) (fails f at wait renewal ∷ attempts) =
    (is_operation_limit_error f ≡ true) × AreRejected n attempts

-- Some attempt is not rejected because of the operation limit.
abbrev pub IsEnding {ℓ} : {A : Type ℓ} → List (Attempt A) → Type 0
IsEnding [] = ⊥
IsEnding (answers a ∷ attempts) = Unit
IsEnding (fails f at wait renewal ∷ attempts) =
    (is_operation_limit_error f ≡ false) ⊎ IsEnding attempts

module _ {ℓ} {A : Type ℓ} (tb : Backoff) where
  attempts-op :
      (n : ℕ) (gate : Option (Gate tb)) (attempts : List (Attempt A)) (e : Ended A tb)
      → op tb false n gate attempts ≡ some e
      → (k : ℕ) × (e.attempts ≡ suc (n + k)) × AreRejected k attempts
  unfolding op renew_and_settle
  attempts-op n gate [] e h = cc
  attempts-op n gate (answers a ∷ attempts) e h = (0, ground (arith, h), tt)
  attempts-op n gate (fails f at (some stop) renewal ∷ attempts) e h = (0, ground (arith, h), tt)
  attempts-op n gate (fails f at none renewal ∷ attempts) e h =
      elim (Bool-cases (is_some gate && is_operation_limit_error f)) [
        | inl limited ↦
            let (k, made, rejected) =
              attempts-op (suc n) (throttled tb at gate) attempts e (rw limited at h) in
            (suc k, omega (arith, made), (ground (arith, limited), rejected))
        | inr other ↦ (0, ground (arith, other, h), tt)
      ]

  renew_and_settle-ends :
      (n : ℕ) (gate : Option (Gate tb)) (f : Failure) (at : ℕ) (wait renewal : Option String)
      (attempts : List (Attempt A))
      → (e : Ended A tb) × (renew_and_settle tb false n gate (fails f at wait renewal) attempts
          ≡ some e)
  unfolding renew_and_settle
  renew_and_settle-ends n gate f at wait (some error) attempts = elim (Bool-cases f.unauthorized) [
    | inl expired ↦ rw expired (_, refl)
    | inr valid ↦ rw valid (_, refl)
  ]
  renew_and_settle-ends n gate f at wait none attempts = elim (Bool-cases f.unauthorized) [
    | inl expired ↦ rw expired (_, refl)
    | inr valid ↦ rw valid (_, refl)
  ]

  op-ends :
      (n : ℕ) (gate : Option (Gate tb)) (attempts : List (Attempt A))
      → IsEnding attempts
      → (e : Ended A tb) × (op tb false n gate attempts ≡ some e)
  unfolding op renew_and_settle
  op-ends n gate [] ending = absurd ending
  op-ends n gate (answers a ∷ attempts) ending = (_, refl)
  op-ends n gate (fails f at (some stop) renewal ∷ attempts) ending =
      elim (Bool-cases (is_some gate && is_operation_limit_error f)) [
        | inl limited ↦ rw limited (_, refl)
        | inr other ↦
            rw other (renew_and_settle-ends (suc n) gate f at (some stop) renewal attempts)
      ]
  op-ends n gate (fails f at none renewal ∷ attempts) ending =
      elim (Bool-cases (is_some gate && is_operation_limit_error f)) [
        | inl limited ↦ rw limited (op-ends (suc n) (throttled tb at gate) attempts (ground arith))
        | inr other ↦ rw other (renew_and_settle-ends (suc n) gate f at none renewal attempts)
      ]

  -- A call that must not be replayed ends unless vCD rejects every attempt because of its operation
  -- limit, and it is attempted again only after such rejections: if it makes `k + 1` attempts,
  -- the first `k` of them were rejected for that reason.
  pub single_vcd_call-replays :
      (gate : Option (Gate tb)) (attempts : List (Attempt A))
      → IsEnding attempts
      → (e : Ended A tb) × (single_vcd_call tb gate attempts ≡ some e)
        × ((k : ℕ) × (e.attempts ≡ suc k) × AreRejected k attempts)
  unfolding single_vcd_call
  single_vcd_call-replays gate attempts ending =
      let (e, h) = op-ends 0 gate attempts ending in
      let (k, made, rejected) = attempts-op 0 gate attempts e h in
      (e, h, (k, omega (arith, made), rejected))
