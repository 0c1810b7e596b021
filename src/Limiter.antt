-- ===== src/Limiter.antt =====
-- oplimiter.go: the bound on the vCD operations that run at once. `reserve` and the two counters
-- are atomics; each method is one step. `gate` is the throttle gate of throttle.go, whose state
-- is passed in, as the limiter shares it with the vCD calls.
pub mod Bounds
pub mod Slots
use fleeting_plugin_vcd.Base.{
  ℕ, ◌+◌, ◌-◌, ltb, leb, if◌then◌else◌, Bool, true, false, ◌&&◌, Option, min,
}
use fleeting_plugin_vcd.Backoff.{Backoff}
use fleeting_plugin_vcd.Semaphore.{Semaphore}
use fleeting_plugin_vcd.Throttle.{Gate, paused}

pub data OpKind : Type 0 where
  op_create op_delete : OpKind

module _ (m : Semaphore) where
  pub record Limiter : Type 0 where
    pub size : ℕ
    pub total : m.State
    pub creates : m.State
    pub deletes : m.State
    pub reserve : Bool
    pub deletes_in_use : ℕ
    pub creates_in_use : ℕ

  -- `newOpLimiter`
  unfoldable pub new_limiter : ℕ → ℕ → ℕ → Limiter
  new_limiter total max_creates max_deletes = record {
    size = total;
    total = m.new_weighted total;
    creates = m.new_weighted (min max_creates total);
    deletes = m.new_weighted (min max_deletes total);
    reserve = true;
    deletes_in_use = 0;
    creates_in_use = 0;
  }

  -- `setCreateReserve`
  unfoldable pub set_create_reserve : Bool → Limiter → Limiter
  set_create_reserve on l = record l { reserve = on }

  -- `kindSem`
  unfoldable pub kind_sem : OpKind → Limiter → m.State
  kind_sem op_create l = l.creates
  kind_sem op_delete l = l.deletes

  -- The semaphore of a kind is replaced, and its counter.
  abbrev pub set_kind : OpKind → m.State → ℕ → Limiter → Limiter
  set_kind op_create sem n l = record l { creates = sem; creates_in_use = n }
  set_kind op_delete sem n l = record l { deletes = sem; deletes_in_use = n }

  abbrev pub in_use : OpKind → Limiter → ℕ
  in_use op_create l = l.creates_in_use
  in_use op_delete l = l.deletes_in_use

  abbrev pub is_delete : OpKind → Bool
  is_delete op_create = false
  is_delete op_delete = true

  -- The guard of `tryAcquire` that keeps the last slot for creates.
  unfoldable pub last_slot_kept : OpKind → Limiter → Bool
  last_slot_kept kind l =
      is_delete kind && (l.reserve && (ltb 1 l.size && leb (l.size - 1) l.deletes_in_use))

  -- The part of `tryAcquire` that takes the semaphores.
  unfoldable pub take_slot : OpKind → Limiter → Limiter × Bool
  unfolding kind_sem
  take_slot kind l =
      let (per_kind, fits) = m.try_acquire 1 (kind_sem kind l) in
      let (all, granted) = m.try_acquire 1 l.total in
      if fits
      then (if granted
          then (set_kind kind per_kind (in_use kind l + 1) (record l { total = all }), true)
          else (
            set_kind kind (m.release 1 per_kind) (in_use kind l) (record l { total = all }),
            false,
          ))
      else (set_kind kind per_kind (in_use kind l) l, false)

  -- `tryAcquire`
  unfoldable pub try_acquire :
      {b : Backoff} → ℕ → Option (Gate b) → OpKind → Limiter → Limiter × Bool
  unfolding take_slot last_slot_kept
  try_acquire {b} now gate kind l =
      if paused b now gate
      then (l, false)
      else if last_slot_kept kind l
      then (l, false)
      else take_slot kind l

  -- `release`
  unfoldable pub release : OpKind → Limiter → Limiter
  unfolding kind_sem
  release kind l =
      set_kind kind (m.release 1 (kind_sem kind l)) (in_use kind l - 1)
        (record l { total = m.release 1 l.total })
