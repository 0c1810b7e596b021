-- ===== src/Limiter/Slots.antt =====
-- oplimiter.go: the slots over the life of a limiter.
use fleeting_plugin_vcd.Base.{
  ℕ, ◌+◌, ◌≤◌, ◌<◌, ◌≡◌, refl, ◌⊎◌, ◌&&◌, Bool, inl, inr, true, false, Option, min, arith,
  Bool-cases,
}
use fleeting_plugin_vcd.Backoff.{Backoff}
use fleeting_plugin_vcd.Semaphore.{Semaphore, IsSemaphore}
use fleeting_plugin_vcd.Throttle.{Gate, paused}
use fleeting_plugin_vcd.Limiter.{
  OpKind, op_create, Limiter, new_limiter, in_use, last_slot_kept, try_acquire, release,
  set_create_reserve,
}
use fleeting_plugin_vcd.Limiter.Bounds.{
  IsBounded, new_limiter-IsBalanced, take_slot-IsBounded, release-IsBounded, IsCapped,
  take_slot-IsCapped, release-IsCapped,
}

module _ (m : Semaphore) (laws : IsSemaphore m) (b : Backoff) where
  pub try_acquire-IsBounded :
      (total c d now : ℕ) (gate : Option (Gate b)) (kind : OpKind) (l : Limiter m)
      → IsBounded m laws total c d l
      → IsBounded m laws total c d (try_acquire m now gate kind l).0
  unfolding try_acquire
  try_acquire-IsBounded total c d now gate kind l v = elim (Bool-cases (paused b now gate)) [
    | inl stop ↦ rw stop v
    | inr go ↦ elim (Bool-cases (last_slot_kept m kind l)) [
      | inl last ↦ rw go (rw last v)
      | inr free ↦ rw go (rw free (take_slot-IsBounded m laws total c d kind l free v))
    ]
  ]

  try_acquire-IsCapped :
      (total c d now : ℕ) (gate : Option (Gate b)) (kind : OpKind) (l : Limiter m)
      → IsCapped m laws total c d l
      → IsCapped m laws total c d (try_acquire m now gate kind l).0
  unfolding try_acquire
  try_acquire-IsCapped total c d now gate kind l v = elim (Bool-cases (paused b now gate)) [
    | inl stop ↦ rw stop v
    | inr go ↦ elim (Bool-cases (last_slot_kept m kind l)) [
      | inl last ↦ rw go (rw last v)
      | inr free ↦ rw go (rw free (take_slot-IsCapped m laws total c d kind l v))
    ]
  ]

  -- The life of a limiter: slots are asked for at any time and under any gate, an operation that
  -- holds a slot gives it back, and the reserve is set; the truth value says whether the reserve
  -- has been on all the time.
  pub data Runs (total c d : ℕ) : Bool → Limiter m → Type 0 where
    starts : Runs total c d true (new_limiter m total c d)
    asks :
        {on : Bool} {l : Limiter m}
        → Runs total c d on l
        → (now : ℕ) (gate : Option (Gate b)) (kind : OpKind)
        → Runs total c d on (try_acquire m now gate kind l).0
    ends :
        {on : Bool} {l : Limiter m}
        → Runs total c d on l
        → (kind : OpKind) → 0 < in_use m kind l
        → Runs total c d on (release m kind l)
    sets_reserve :
        {on : Bool} {l : Limiter m}
        → Runs total c d on l
        → (reserve : Bool) → Runs total c d (on && reserve) (set_create_reserve m reserve l)

  pub new_limiter-IsBounded : (total c d : ℕ) → IsBounded m laws total c d (new_limiter m total c d)
  unfolding new_limiter
  new_limiter-IsBounded total c d = ground (
    arith,
    new_limiter-IsBalanced m laws total c d,
    laws.new_capacity (min c total),
    laws.new_capacity (min d total),
  )

  Runs-IsCapped :
      (total c d : ℕ) {on : Bool} {l : Limiter m}
      → Runs total c d on l
      → IsCapped m laws total c d l
  unfolding set_create_reserve
  Runs-IsCapped total c d starts =
      let v = new_limiter-IsBounded total c d in
      record {
        balanced = v.balanced;
        size_fixed = v.size_fixed;
        creates_capped = v.creates_capped;
        deletes_capped = v.deletes_capped;
      }
  Runs-IsCapped total c d (asks r now gate kind) =
      try_acquire-IsCapped total c d now gate kind _ (Runs-IsCapped total c d r)
  Runs-IsCapped total c d (ends r kind h) =
      release-IsCapped m laws total c d kind _ h (Runs-IsCapped total c d r)
  Runs-IsCapped total c d (sets_reserve r reserve) = ground (arith, Runs-IsCapped total c d r)

  Runs-IsBounded :
      (total c d : ℕ) {on : Bool} {l : Limiter m}
      → Runs total c d on l
      → on ≡ true
      → IsBounded m laws total c d l
  unfolding set_create_reserve
  Runs-IsBounded total c d starts h = new_limiter-IsBounded total c d
  Runs-IsBounded total c d (asks r now gate kind) h =
      try_acquire-IsBounded total c d now gate kind _ (Runs-IsBounded total c d r h)
  Runs-IsBounded total c d (ends r kind p) h =
      release-IsBounded m laws total c d kind _ p (Runs-IsBounded total c d r h)
  Runs-IsBounded total c d (sets_reserve {on = true} r true) h =
      ground (arith, Runs-IsBounded total c d r refl)
  Runs-IsBounded total c d (sets_reserve {on = true} r false) h = absurd (ground (arith, h))
  Runs-IsBounded total c d (sets_reserve {on = false} r reserve) h = absurd (ground (arith, h))

  -- From a new limiter, at every moment: creates and deletes together are at most `total`, creates
  -- at most `c`, deletes at most `d`; and where the create reserve was never turned off, deletes
  -- leave one slot free unless there is only one.
  pub in_use_bounded :
      (total c d : ℕ) (on : Bool) {l : Limiter m}
      → Runs total c d on l
      → (l.creates_in_use + l.deletes_in_use ≤ total)
        × (l.creates_in_use ≤ c)
        × (l.deletes_in_use ≤ d)
        × ((on ≡ false) ⊎ (total ≤ 1) ⊎ (l.deletes_in_use < total))
  in_use_bounded total c d on r = (
    ground (arith, Runs-IsCapped total c d r),
    ground (arith, Runs-IsCapped total c d r),
    ground (arith, Runs-IsCapped total c d r),
    elim (Bool-cases on) [
      | inl kept ↦ inr (Runs-IsBounded total c d r kept).slot_kept
      | inr off ↦ inl off
    ],
  )

  -- Deletes cannot starve creates: where the create reserve was never turned off, with at least two
  -- slots and at least one create allowed, if no create is running and no pause is active, a
  -- create gets a slot, whatever deletes are running.
  pub create_has_slot :
      (total c d now : ℕ) (gate : Option (Gate b)) {l : Limiter m}
      → Runs total c d true l
      → 2 ≤ total
      → 1 ≤ c
      → paused b now gate ≡ false
      → l.creates_in_use ≡ 0
      → (try_acquire m now gate op_create l).1 ≡ true
  unfolding try_acquire
  create_has_slot total c d now gate {l} r two one go none_running = ground (
    arith,
    Runs-IsBounded total c d r refl,
    laws.try_answer 1 l.creates,
    laws.try_answer 1 l.total,
  )
