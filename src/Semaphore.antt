-- ===== src/Semaphore.antt =====
-- golang.org/x/sync/semaphore, which oplimiter.go only calls: a weighted semaphore is a parameter
-- of the model. `capacity` and `held` say what its documentation speaks of.
use fleeting_plugin_vcd.Base.{
  ℕ, ◌+◌, ◌-◌, ◌≤◌, ◌≡◌, refl, Bool, true, false, if◌then◌else◌, leb, arith,
}

pub record Semaphore : Type 1 where
  pub State : Type 0
  pub new_weighted : ℕ → State
  pub try_acquire : ℕ → State → State × Bool
  pub release : ℕ → State → State
  pub capacity : State → ℕ
  pub held : State → ℕ

-- The documented behaviour: a new semaphore is free; `TryAcquire` takes the weight if it fits
-- (no `Acquire` is waiting) and else leaves the semaphore unchanged; `Release` gives back what is
-- held.
pub record IsSemaphore (m : Semaphore) : Type 0 where
  pub new_capacity : (n : ℕ) → m.capacity (m.new_weighted n) ≡ n
  pub new_held : (n : ℕ) → m.held (m.new_weighted n) ≡ 0
  pub try_capacity : (n : ℕ) (s : m.State) → m.capacity (m.try_acquire n s).0 ≡ m.capacity s
  pub try_answer : (n : ℕ) (s : m.State) → (m.try_acquire n s).1 ≡ leb (m.held s + n) (m.capacity s)
  pub try_held :
      (n : ℕ) (s : m.State)
      → m.held (m.try_acquire n s).0
        ≡ (if leb (m.held s + n) (m.capacity s) then m.held s + n else m.held s)
  pub release_capacity : (n : ℕ) (s : m.State) → m.capacity (m.release n s) ≡ m.capacity s
  pub release_held : (n : ℕ) (s : m.State) → n ≤ m.held s → m.held (m.release n s) ≡ m.held s - n

-- A semaphore as two numbers, its capacity and what is held.
abbrev pub counting : Semaphore
counting = record {
  State = ℕ × ℕ;
  new_weighted = λ n. (n, 0);
  try_acquire = λ n s. if leb (s.1 + n) s.0 then ((s.0, s.1 + n), true) else (s, false);
  release = λ n s. (s.0, s.1 - n);
  capacity = λ s. s.0;
  held = λ s. s.1;
}

pub counting-IsSemaphore : IsSemaphore counting
counting-IsSemaphore = record {
  new_capacity = λ n. refl;
  new_held = λ n. refl;
  try_capacity = λ n s. ground arith;
  try_answer = λ n s. ground arith;
  try_held = λ n s. ground arith;
  release_capacity = λ n s. refl;
  release_held = λ n s h. refl;
}
