-- ===== src/Store/Query.antt =====
-- store.go: the methods that only read the store, beyond lookup by a key.
use fleeting_plugin_vcd.Base.{
  ℕ, suc, ◌+◌, ltb, if◌then◌else◌, Bool, true, false, not, ◌&&◌, none, some, List, [], ◌∷◌,
}
use fleeting_plugin_vcd.Instance.{
  Phase, pending_create, creating, running, pending_delete, deleted, phase_eq, Instance,
}
use fleeting_plugin_vcd.Store.{Store, get_all}

-- A loop that appends the instances which pass a test.
unfoldable pub select : (Instance → Bool) → List Instance → List Instance
select test [] = []
select test (i ∷ is) = let rest = select test is in if test i then i ∷ rest else rest

-- A loop that counts the instances which pass a test.
unfoldable pub tally : (Instance → Bool) → List Instance → ℕ
tally test [] = 0
tally test (i ∷ is) = let rest = tally test is in if test i then suc rest else rest

-- `inst.NextRetryAfter == nil || !now.Before(*inst.NextRetryAfter)`
unfoldable pub backoff_elapsed : ℕ → Instance → Bool
backoff_elapsed now i = elim i.next_retry_after [ none ↦ true | some t ↦ not (ltb now t) ]

abbrev pub is_pending : Phase → ℕ → Instance → Bool
is_pending p now i = phase_eq i.phase p && backoff_elapsed now i

-- `GetPendingCreates`
unfoldable pub get_pending_creates : ℕ → Store → List Instance
get_pending_creates now s = select (is_pending pending_create now) (get_all s)

-- `GetPendingDeletes`
unfoldable pub get_pending_deletes : ℕ → Store → List Instance
get_pending_deletes now s = select (is_pending pending_delete now) (get_all s)

abbrev pub is_old : ℕ → ℕ → Instance → Bool
is_old max_age now i = elim i.create_completed_at [
  | none ↦ false
  | some t ↦ phase_eq i.phase running && ltb (t + max_age) now
]

-- `GetRunningForGC`
unfoldable pub get_running_for_gc : ℕ → ℕ → Store → List Instance
get_running_for_gc max_age now s = select (is_old max_age now) (get_all s)

-- `LeftoverCount`
unfoldable pub leftover_count : Store → ℕ
leftover_count s = tally (λ i. i.leftover && not (phase_eq i.phase deleted)) (get_all s)

-- `HasCreating`, which returns at the first hit.
unfoldable pub any_creating : List Instance → Bool
any_creating [] = false
any_creating (i ∷ is) =
    let rest = any_creating is in if phase_eq i.phase creating then true else rest

unfoldable pub has_creating : Store → Bool
unfolding any_creating
has_creating s = any_creating (get_all s)

-- `Size`
unfoldable pub size : Store → ℕ
size s = tally (λ i. not (phase_eq i.phase deleted)) (get_all s)
