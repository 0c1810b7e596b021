-- ===== src/Limiter/Bounds.antt =====
-- oplimiter.go: how many operations run at once.
use fleeting_plugin_vcd.Base.{
  ℕ, ◌+◌, ◌≤◌, ◌<◌, ◌≡◌, ◌∙◌, ◌⊎◌, true, false, min, arith, if◌then◌else◌,
}
use fleeting_plugin_vcd.Semaphore.{Semaphore, IsSemaphore}
use fleeting_plugin_vcd.Limiter.{
  OpKind, op_create, op_delete, Limiter, new_limiter, is_delete, in_use, last_slot_kept, take_slot,
  release,
}

module _ (m : Semaphore) (laws : IsSemaphore m) where
  -- The counters say what the semaphores hold, and nothing holds more than its capacity.
  pub record IsBalanced (l : Limiter m) : Type 0 where
    pub total_held : m.held l.total ≡ l.creates_in_use + l.deletes_in_use
    pub creates_held : m.held l.creates ≡ l.creates_in_use
    pub deletes_held : m.held l.deletes ≡ l.deletes_in_use
    pub total_capacity : m.capacity l.total ≡ l.size
    pub total_fits : m.held l.total ≤ l.size
    pub creates_fit : l.creates_in_use ≤ m.capacity l.creates
    pub deletes_fit : l.deletes_in_use ≤ m.capacity l.deletes

  pub new_limiter-IsBalanced : (total c d : ℕ) → IsBalanced (new_limiter m total c d)
  unfolding new_limiter
  new_limiter-IsBalanced total c d = ground (
    arith,
    laws.new_held total,
    laws.new_held (min c total),
    laws.new_held (min d total),
    laws.new_capacity total,
  )

  take_slot-IsBalanced :
      (kind : OpKind) (l : Limiter m) → IsBalanced l → IsBalanced (take_slot m kind l).0
  unfolding take_slot
  take_slot-IsBalanced op_create l v = ground (
    arith,
    laws.try_answer 1 l.creates,
    laws.try_held 1 l.creates,
    laws.try_capacity 1 l.creates,
    laws.try_answer 1 l.total,
    laws.try_held 1 l.total,
    laws.try_capacity 1 l.total,
    laws.release_held 1 (m.try_acquire 1 l.creates).0,
    laws.release_capacity 1 (m.try_acquire 1 l.creates).0,
  )
  take_slot-IsBalanced op_delete l v = ground (
    arith,
    laws.try_answer 1 l.deletes,
    laws.try_held 1 l.deletes,
    laws.try_capacity 1 l.deletes,
    laws.try_answer 1 l.total,
    laws.try_held 1 l.total,
    laws.try_capacity 1 l.total,
    laws.release_held 1 (m.try_acquire 1 l.deletes).0,
    laws.release_capacity 1 (m.try_acquire 1 l.deletes).0,
  )

  release-IsBalanced :
      (kind : OpKind) (l : Limiter m)
      → 0 < in_use m kind l
      → IsBalanced l
      → IsBalanced (release m kind l)
  unfolding release
  release-IsBalanced op_create l h v = ground (
    arith,
    laws.release_held 1 l.creates,
    laws.release_capacity 1 l.creates,
    laws.release_held 1 l.total,
    laws.release_capacity 1 l.total,
  )
  release-IsBalanced op_delete l h v = ground (
    arith,
    laws.release_held 1 l.deletes,
    laws.release_capacity 1 l.deletes,
    laws.release_held 1 l.total,
    laws.release_capacity 1 l.total,
  )

  -- What the methods leave alone, and the slot that deletes never take.
  pub record IsBounded (total c d : ℕ) (l : Limiter m) : Type 0 where
    pub balanced : IsBalanced l
    pub size_fixed : l.size ≡ total
    pub creates_capped : m.capacity l.creates ≡ min c total
    pub deletes_capped : m.capacity l.deletes ≡ min d total
    pub reserve_on : l.reserve ≡ true
    pub slot_kept : (total ≤ 1) ⊎ (l.deletes_in_use < total)

  take_slot_fixed :
      (kind : OpKind) (l : Limiter m)
      → let l' = (take_slot m kind l).0 in
        (l'.size ≡ l.size)
        × (m.capacity l'.creates ≡ m.capacity l.creates)
        × (m.capacity l'.deletes ≡ m.capacity l.deletes)
        × (l'.reserve ≡ l.reserve)
  unfolding take_slot
  take_slot_fixed op_create l =
      ground (
        arith,
        laws.try_capacity 1 l.creates,
        laws.release_capacity 1 (m.try_acquire 1 l.creates).0,
      )
  take_slot_fixed op_delete l =
      ground (
        arith,
        laws.try_capacity 1 l.deletes,
        laws.release_capacity 1 (m.try_acquire 1 l.deletes).0,
      )

  take_slot_deletes :
      (kind : OpKind) (l : Limiter m)
      → (take_slot m kind l).0.deletes_in_use
        ≤ (if is_delete m kind then l.deletes_in_use + 1 else l.deletes_in_use)
  unfolding take_slot
  take_slot_deletes op_create l = ground arith
  take_slot_deletes op_delete l = ground arith

  -- What holds with and without the reserve.
  pub record IsCapped (total c d : ℕ) (l : Limiter m) : Type 0 where
    pub balanced : IsBalanced l
    pub size_fixed : l.size ≡ total
    pub creates_capped : m.capacity l.creates ≡ min c total
    pub deletes_capped : m.capacity l.deletes ≡ min d total

  pub take_slot-IsCapped :
      (total c d : ℕ) (kind : OpKind) (l : Limiter m)
      → IsCapped total c d l
      → IsCapped total c d (take_slot m kind l).0
  take_slot-IsCapped total c d kind l v = record {
    balanced = take_slot-IsBalanced kind l v.balanced;
    size_fixed = (take_slot_fixed kind l).0 ∙ v.size_fixed;
    creates_capped = (take_slot_fixed kind l).1 ∙ v.creates_capped;
    deletes_capped = (take_slot_fixed kind l).2 ∙ v.deletes_capped;
  }

  pub release-IsCapped :
      (total c d : ℕ) (kind : OpKind) (l : Limiter m)
      → 0 < in_use m kind l
      → IsCapped total c d l
      → IsCapped total c d (release m kind l)
  unfolding release
  release-IsCapped total c d op_create l h v =
      ground (arith, release-IsBalanced op_create l h v.balanced, laws.release_capacity 1 l.creates)
  release-IsCapped total c d op_delete l h v =
      ground (arith, release-IsBalanced op_delete l h v.balanced, laws.release_capacity 1 l.deletes)

  pub take_slot-IsBounded :
      (total c d : ℕ) (kind : OpKind) (l : Limiter m)
      → last_slot_kept m kind l ≡ false
      → IsBounded total c d l
      → IsBounded total c d (take_slot m kind l).0
  unfolding last_slot_kept
  take_slot-IsBounded total c d op_create l free v = record {
    balanced = take_slot-IsBalanced op_create l v.balanced;
    size_fixed = (take_slot_fixed op_create l).0 ∙ v.size_fixed;
    creates_capped = (take_slot_fixed op_create l).1 ∙ v.creates_capped;
    deletes_capped = (take_slot_fixed op_create l).2 ∙ v.deletes_capped;
    reserve_on = (take_slot_fixed op_create l).3 ∙ v.reserve_on;
    slot_kept = ground (arith, take_slot_deletes op_create l);
  }
  take_slot-IsBounded total c d op_delete l free v = record {
    balanced = take_slot-IsBalanced op_delete l v.balanced;
    size_fixed = (take_slot_fixed op_delete l).0 ∙ v.size_fixed;
    creates_capped = (take_slot_fixed op_delete l).1 ∙ v.creates_capped;
    deletes_capped = (take_slot_fixed op_delete l).2 ∙ v.deletes_capped;
    reserve_on = (take_slot_fixed op_delete l).3 ∙ v.reserve_on;
    slot_kept = ground (arith, take_slot_deletes op_delete l);
  }

  pub release-IsBounded :
      (total c d : ℕ) (kind : OpKind) (l : Limiter m)
      → 0 < in_use m kind l
      → IsBounded total c d l
      → IsBounded total c d (release m kind l)
  unfolding release
  release-IsBounded total c d op_create l h v =
      ground (arith, release-IsBalanced op_create l h v.balanced, laws.release_capacity 1 l.creates)
  release-IsBounded total c d op_delete l h v =
      ground (arith, release-IsBalanced op_delete l h v.balanced, laws.release_capacity 1 l.deletes)
