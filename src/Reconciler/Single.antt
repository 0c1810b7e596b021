-- ===== src/Reconciler/Single.antt =====
-- reconciler.go: at most one create runs for an intent ID, and while it runs the instance is
-- Creating. Here: the invariant, and the lists of instances that the dispatch loops go through.
pub mod Loops
pub mod Ends
pub mod Reach
use fleeting_plugin_vcd.Base.{
  ℕ, suc, ◌≤◌, ◌≡◌, refl, ◌≢◌, ◌⊎◌, inl, inr, String, Bool, true, false, none, some, List, [], ◌∷◌,
  map, lookup, values, IsMap, arith, eq_iff, str_eq, if◌then◌else◌, Bool-cases,
}
use fleeting_plugin_vcd.Backoff.{Backoff}
use fleeting_plugin_vcd.Instance.{pending_create, creating, pending_delete, Instance}
use fleeting_plugin_vcd.Reconciler.{Reconciler, Operation, creates, deletes, cleans}
use fleeting_plugin_vcd.Semaphore.{Semaphore}
use fleeting_plugin_vcd.Store.{Store, get_all}
use fleeting_plugin_vcd.Store.Index.{IsWellFormed}
use fleeting_plugin_vcd.Store.Index.Prune.{Listed, Listed-self}
use fleeting_plugin_vcd.Store.Phases.{unmade, phase_of, IsSound, IsQuiet}
use fleeting_plugin_vcd.Store.Query.{select, is_pending, get_pending_creates, get_pending_deletes}

-- How many goroutines create, and how many delete, for one intent ID.
abbrev pub creates_of : String → List Operation → ℕ
creates_of id [] = 0
creates_of id (creates j ∷ ops) = if str_eq j id then suc (creates_of id ops) else creates_of id ops
creates_of id (deletes _ _ ∷ ops) = creates_of id ops
creates_of id (cleans _ _ ∷ ops) = creates_of id ops

abbrev pub deletes_of : String → List Operation → ℕ
deletes_of id [] = 0
deletes_of id (creates _ ∷ ops) = deletes_of id ops
deletes_of id (deletes j _ ∷ ops) =
    if str_eq j id then suc (deletes_of id ops) else deletes_of id ops
deletes_of id (cleans _ _ ∷ ops) = deletes_of id ops

-- Instances that wait to be created, each of another intent ID.
abbrev pub IsApart : String → List Instance → Type 0
IsApart k [] = Unit
IsApart k (i ∷ is) = (i.intent_id ≢ k) × IsApart k is

abbrev pub AllPending : List Instance → Store → Type 0
AllPending [] s = Unit
AllPending (i ∷ is) s =
    (phase_of s i.intent_id ≡ some pending_create) × IsApart i.intent_id is × AllPending is s

-- Instances none of which is to be created.
abbrev pub AllMade : List Instance → Store → Type 0
AllMade [] s = Unit
AllMade (i ∷ is) s = (unmade (phase_of s i.intent_id) ≡ false) × AllMade is s

module _ (s : Store) (w : IsWellFormed s) (now : ℕ) where
  pending-IsApart :
      (k : String) (r : List (String × ℕ))
      → lookup k r ≡ none
      → Listed r s.instances
      → IsApart k (select (is_pending pending_create now) (map s.cell (values r)))
  unfolding lookup select
  pending-IsApart k [] new l = tt
  pending-IsApart k ((j, p) ∷ r) new l =
      ground (arith, eq_iff j k, w.named j p l.0, pending-IsApart k r)

  select-AllPending :
      (r : List (String × ℕ))
      → IsMap r
      → Listed r s.instances
      → AllPending (select (is_pending pending_create now) (map s.cell (values r))) s
  unfolding select
  select-AllPending [] m l = tt
  select-AllPending ((k, p) ∷ r) m l =
      let rest = select-AllPending r m.1 l.1 in
      elim (Bool-cases (is_pending pending_create now (s.cell p))) [
        | inl chosen ↦ rw chosen (
          rw (w.named k p l.0, l.0) (ground (arith, chosen)),
          rw (w.named k p l.0) (pending-IsApart k r m.0 l.1),
          rest,
        )
        | inr left ↦ rw left rest
      ]

  select-AllMade :
      (r : List (String × ℕ))
      → Listed r s.instances
      → AllMade (select (is_pending pending_delete now) (map s.cell (values r))) s
  unfolding select
  select-AllMade [] l = tt
  select-AllMade ((k, p) ∷ r) l = elim (Bool-cases (is_pending pending_delete now (s.cell p))) [
    | inl chosen ↦
        rw chosen (rw (w.named k p l.0, l.0) (ground (arith, chosen)), select-AllMade r l.1)
    | inr left ↦ rw left (select-AllMade r l.1)
  ]

  pub get_pending_creates-AllPending : AllPending (get_pending_creates now s) s
  unfolding get_pending_creates get_all
  get_pending_creates-AllPending =
      select-AllPending s.instances w.keys (Listed-self s.instances w.keys)

  pub get_pending_deletes-AllMade : AllMade (get_pending_deletes now s) s
  unfolding get_pending_deletes get_all
  get_pending_deletes-AllMade = select-AllMade s.instances (Listed-self s.instances w.keys)

module _ (m : Semaphore) (tb cb : Backoff) where
  pub record IsSingle (r : Reconciler m tb cb) : Type 0 where
    pub sound : IsSound r.store
    pub busy : (id : String) → (creates_of id r.running ≡ 0) ⊎ (phase_of r.store id ≡ some creating)
    pub once : (id : String) → creates_of id r.running ≤ 1
    pub made :
        (id : String) → (deletes_of id r.running ≡ 0) ⊎ (unmade (phase_of r.store id) ≡ false)

  -- A quiet change of the store.
  pub quiet-IsSingle :
      (r s : Reconciler m tb cb)
      → IsQuiet r.store s.store
      → ((id : String)
          → (creates_of id s.running ≡ creates_of id r.running)
            × (deletes_of id s.running ≡ deletes_of id r.running))
      → IsSingle r
      → IsSingle s
  quiet-IsSingle r s (sound, alike) same v = record {
    sound = sound;
    busy = λ id. ground (arith, alike id, same id, v.busy id);
    once = λ id. ground (arith, same id, v.once id);
    made = λ id. ground (arith, alike id, same id, v.made id);
  }
