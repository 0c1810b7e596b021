-- ===== src/Store.antt =====
-- store.go: the cache of desired and observed instance state. The two Go maps hold pointers to
-- shared `Instance` values, so the store is an explicit heap: `cell` gives the instance behind a
-- pointer, `next` is the next free pointer, and the maps lead from keys to pointers. Each method
-- takes what `time.Now()` returns as `now`. Logging and locking are left out: every method holds
-- the mutex for its whole run, so it is one atomic step.
-- Here: the state, its constructor, and lookups.
pub mod Ops
pub mod Expiry
pub mod Query
pub mod Index
pub mod Missing
pub mod Phases
use fleeting_plugin_vcd.Base.{
  ℕ, ◌+◌, String, ◌==◌, if◌then◌else◌, Option, none, some, List, [], lookup, values, map,
}
use fleeting_plugin_vcd.Instance.{Instance, zero_instance}

pub record Store : Type 0 where
  pub cell : ℕ → Instance
  pub next : ℕ
  pub instances : List (String × ℕ)  -- keyed by IntentID
  pub by_vapp_href : List (String × ℕ)  -- secondary index by vApp HREF

-- `newDesiredStateStore`
unfoldable pub new_store : Store
new_store = record { cell = λ _. zero_instance; next = 0; instances = []; by_vapp_href = [] }

-- `*p = inst`
abbrev pub write : (ℕ → Instance) → ℕ → Instance → ℕ → Instance
write c p i q = if p == q then i else c q

-- The instance behind a pointer is replaced.
abbrev pub assign : Store → ℕ → Instance → Store
assign s p i = record s { cell = write s.cell p i }

-- `&Instance{…}`: the new instance lies behind the pointer `s.next`.
abbrev pub alloc : Store → Instance → Store
alloc s i = record s { cell = write s.cell s.next i; next = s.next + 1 }

-- `*p` for a pointer that a map may not hold.
abbrev pub deref : (ℕ → Instance) → Option ℕ → Option Instance
deref c none = none
deref c (some p) = some (c p)

-- `GetByVAppHREF`
unfoldable pub get_by_vapp_href : Store → String → Option Instance
get_by_vapp_href s href = deref s.cell (lookup href s.by_vapp_href)

-- `GetByIntentID`
unfoldable pub get_by_intent_id : Store → String → Option Instance
get_by_intent_id s intent_id = deref s.cell (lookup intent_id s.instances)

-- `findLocked`: by intent ID first, then by vApp HREF.
unfoldable pub find_locked : Store → String → Option ℕ
find_locked s id = elim (lookup id s.instances) [
  | some p ↦ some p
  | none ↦ lookup id s.by_vapp_href
]

-- `GetAll`
unfoldable pub get_all : Store → List Instance
get_all s = map s.cell (values s.instances)
