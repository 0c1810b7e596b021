-- ===== src/Store/Missing.antt =====
-- store.go, `MarkDisappeared` and `UpdateFromVCD`: when a tracked instance counts as gone.
use fleeting_plugin_vcd.Base.{
  ℕ, ◌+◌, ◌<◌, ◌≡◌, refl, ◌≢◌, Bool, true, false, ◌⊎◌, String, none, some, leb, length, List, [],
  ◌∷◌, lookup, values, IsMap, arith, eq_iff, if◌then◌else◌,
}
use fleeting_plugin_vcd.Instance.{Phase, running, pending_delete, deleting, deleted, Instance}
use fleeting_plugin_vcd.Store.{Store, write, get_by_intent_id}
use fleeting_plugin_vcd.Store.Index.{IsWellFormed, get_by_intent_id-held}
use fleeting_plugin_vcd.Store.Index.Keep.{mark_disappeared-IsWellFormed}
use fleeting_plugin_vcd.Store.Index.Prune.{Listed, Listed-self}
use fleeting_plugin_vcd.Store.Ops.{miss, contains, update_each, mark_disappeared}

module _ (f : Instance → Instance) (s : Store) (w : IsWellFormed s) (k : String) (p : ℕ)
    (held : lookup k s.instances ≡ some p) where
  -- A loop that does not come to the key `k` leaves its instance alone.
  update_each_absent :
      (r : List (String × ℕ)) (c : ℕ → Instance)
      → lookup k r ≡ none
      → Listed r s.instances
      → update_each f (values r) c p ≡ c p
  unfolding update_each lookup
  update_each_absent [] c new l = refl
  update_each_absent ((j, q) ∷ r) c new l = ground (
    arith,
    eq_iff j k,
    w.named j q l.0,
    w.named k p held,
    update_each_absent r (write c q (f (c q))),
  )

  -- A loop over a map updates the instance of each key once.
  update_each_once :
      (r : List (String × ℕ)) (c : ℕ → Instance)
      → IsMap r
      → lookup k r ≡ some p
      → Listed r s.instances
      → update_each f (values r) c p ≡ f (c p)
  unfolding update_each lookup
  update_each_once [] c m at_k l = cc
  update_each_once ((j, q) ∷ r) c m at_k l = ground (
    arith,
    eq_iff j k,
    w.named j q l.0,
    w.named k p held,
    update_each_absent r (write c q (f (c q))),
    update_each_once r (write c q (f (c q))) m.1,
  )

-- A call applies `miss` once to every tracked instance.
pub get_by_intent_id-mark_disappeared :
    (known : List String) (now : ℕ) (s : Store) (k : String) (i : Instance)
    → IsWellFormed s
    → get_by_intent_id s k ≡ some i
    → get_by_intent_id (mark_disappeared known now s) k ≡ some (miss known now i)
unfolding get_by_intent_id mark_disappeared
get_by_intent_id-mark_disappeared known now s k i w e =
    let (p, held, at_p) = get_by_intent_id-held s k i e in
    ground (
      arith,
      update_each_once (miss known now) s w k p held s.instances s.cell w.keys held
          (Listed-self s.instances w.keys),
    )

-- The phases in which a vApp is expected to exist.
abbrev pub is_present : Phase → Bool
is_present running = true
is_present pending_delete = true
is_present deleting = true
is_present _ = false

miss_spares :
    (known : List String) (now : ℕ) (i : Instance)
    → (contains i.id known ≡ true) ⊎ (i.id ≡ "") ⊎ (is_present i.phase ≡ false)
    → miss known now i ≡ i
unfolding miss
miss_spares known now i spared = ground (arith, eq_iff i.id "")

-- The calls of a stretch, oldest first: the HREFs that each is given, and its time. A poll makes at
-- most one; one that lists nothing while instances are tracked makes none.
unfoldable pub misses : List (List String × ℕ) → Instance → Instance
misses [] i = i
misses ((known, now) ∷ polls) i = misses polls (miss known now i)

abbrev pub NoneSaw : String → List (List String × ℕ) → Type 0
NoneSaw h [] = Unit
NoneSaw h ((known, _) ∷ polls) = (contains h known ≡ false) × NoneSaw h polls

misses-deleted :
    (polls : List (List String × ℕ)) (i : Instance)
    → i.phase ≡ deleted
    → (misses polls i).phase ≡ deleted
unfolding misses miss
misses-deleted [] i e = e
misses-deleted ((known, now) ∷ polls) i e = ground (arith, misses-deleted polls (miss known now i))

phase-misses :
    (polls : List (List String × ℕ)) (i : Instance)
    → i.id ≢ ""
    → is_present i.phase ≡ true
    → i.missed_polls < 3
    → NoneSaw i.id polls
    → (misses polls i).phase ≡ (if leb 3 (i.missed_polls + length polls) then deleted else i.phase)
unfolding misses miss
phase-misses [] i ne live m n = ground arith
phase-misses ((known, now) ∷ polls) i ne live m n = ground (
  arith,
  eq_iff i.id "",
  misses-deleted polls (miss known now i),
  phase-misses polls (miss known now i),
)

-- A stretch of calls of `MarkDisappeared`, oldest first.
unfoldable pub mark_each : List (List String × ℕ) → Store → Store
mark_each [] s = s
mark_each ((known, now) ∷ polls) s = mark_each polls (mark_disappeared known now s)

get_by_intent_id-mark_each :
    (polls : List (List String × ℕ)) (s : Store) (k : String) (i : Instance)
    → IsWellFormed s
    → get_by_intent_id s k ≡ some i
    → get_by_intent_id (mark_each polls s) k ≡ some (misses polls i)
unfolding mark_each misses
get_by_intent_id-mark_each [] s k i w e = e
get_by_intent_id-mark_each ((known, now) ∷ polls) s k i w e =
    get_by_intent_id-mark_each polls (mark_disappeared known now s) k (miss known now i)
      (mark_disappeared-IsWellFormed known now s w)
      (get_by_intent_id-mark_disappeared known now s k i w e)

-- In a well-formed store, `MarkDisappeared` marks an instance that has an HREF and is in a phase where
-- its vApp should exist as Deleted when its misses reach three, over a stretch of calls in none of
-- which its HREF is known, and keeps its phase while they are fewer.
pub phase-mark_each :
    (polls : List (List String × ℕ)) (s : Store) (k : String) (i : Instance)
    → IsWellFormed s
    → get_by_intent_id s k ≡ some i
    → i.id ≢ ""
    → is_present i.phase ≡ true
    → i.missed_polls < 3
    → NoneSaw i.id polls
    → (j : Instance) × (get_by_intent_id (mark_each polls s) k ≡ some j)
      × (j.phase ≡ (if leb 3 (i.missed_polls + length polls) then deleted else i.phase))
phase-mark_each polls s k i w e ne live m n =
    (misses polls i, get_by_intent_id-mark_each polls s k i w e, phase-misses polls i ne live m n)

-- In a well-formed store, a call leaves an instance exactly as it is if its HREF is known, if it
-- has no HREF, if it is still being created, or if it is already deleted.
pub mark_disappeared_spares :
    (known : List String) (now : ℕ) (s : Store) (k : String) (i : Instance)
    → IsWellFormed s
    → get_by_intent_id s k ≡ some i
    → (contains i.id known ≡ true) ⊎ (i.id ≡ "") ⊎ (is_present i.phase ≡ false)
    → get_by_intent_id (mark_disappeared known now s) k ≡ some i
mark_disappeared_spares known now s k i w e spared =
    ground (arith, get_by_intent_id-mark_disappeared known now s k i w e, miss_spares known now i)
