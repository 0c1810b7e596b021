-- ===== src/Reconciler/Cycle/Requests.antt =====
-- reconciler.go, `Increase`: what a request for instances adds to the store.
use fleeting_plugin_vcd.Base.{
  ℕ, suc, ◌+◌, ◌≡◌, refl, String, Bool, true, not, Option, none, some, List, [], ◌∷◌, map, length,
  lookup, put, values, arith, eq_iff,
}
use fleeting_plugin_vcd.Backoff.{Backoff}
use fleeting_plugin_vcd.Instance.{deleted, phase_eq, Instance}
use fleeting_plugin_vcd.Reconciler.{Reconciler}
use fleeting_plugin_vcd.Reconciler.Cycle.{add_intents, increase}
use fleeting_plugin_vcd.Semaphore.{Semaphore}
use fleeting_plugin_vcd.Store.{Store, write, get_all}
use fleeting_plugin_vcd.Store.Index.{IsWellFormed}
use fleeting_plugin_vcd.Store.Index.Add.{add_create_intent-IsWellFormed}
use fleeting_plugin_vcd.Store.Index.Prune.{Listed, Listed-self}
use fleeting_plugin_vcd.Store.Ops.{add_create_intent}
use fleeting_plugin_vcd.Store.Query.{tally, size}

abbrev is_live : Instance → Bool
is_live i = not (phase_eq i.phase deleted)

tally-put :
    (s : Store) (w : IsWellFormed s) (k : String) (i : Instance) (r : List (String × ℕ))
    → is_live i ≡ true
    → lookup k r ≡ none
    → Listed r s.instances
    → tally is_live (map (write s.cell s.next i) (values (put k s.next r)))
      ≡ suc (tally is_live (map s.cell (values r)))
unfolding tally lookup put
tally-put s w k i [] live new l = ground (arith, live)
tally-put s w k i ((j, p) ∷ r) live new l =
    ground (arith, eq_iff j k, w.allocated j p l.0, tally-put s w k i r)

size-add_create_intent :
    (id : String) (now : ℕ) (s : Store)
    → IsWellFormed s
    → lookup id s.instances ≡ none
    → size (add_create_intent id now s) ≡ suc (size s)
unfolding size get_all add_create_intent
size-add_create_intent id now s w new =
    tally-put s w id _ s.instances refl new (Listed-self s.instances w.keys)

-- The IDs that could be generated are unused, each also by those before it.
abbrev pub AreUnused : List (Option String) → ℕ → Store → Type 0
AreUnused [] now s = Unit
AreUnused (none ∷ ids) now s = AreUnused ids now s
AreUnused (some id ∷ ids) now s =
    (lookup id s.instances ≡ none) × AreUnused ids now (add_create_intent id now s)

abbrev pub generated : List (Option String) → ℕ
generated [] = 0
generated (none ∷ ids) = generated ids
generated (some _ ∷ ids) = suc (generated ids)

add_intents-counts :
    (ids : List (Option String)) (now : ℕ) (s : Store)
    → IsWellFormed s
    → AreUnused ids now s
    → (length (add_intents ids now s).1 ≡ length ids)
      × (size (add_intents ids now s).0 ≡ size s + generated ids)
unfolding add_intents
add_intents-counts [] now s w unused = (refl, omega arith)
add_intents-counts (none ∷ ids) now s w unused =
    let (names, grown) = add_intents-counts ids now s w unused in (omega (arith, names), grown)
add_intents-counts (some id ∷ ids) now s w unused =
    let (names, grown) =
      add_intents-counts ids now (add_create_intent id now s)
        (add_create_intent-IsWellFormed id now s w unused.0) unused.1 in
    (omega (arith, names), omega (arith, grown, size-add_create_intent id now s w unused.0))

-- In a well-formed store, with unused IDs, `Increase` answers with as many names as instances were
-- asked for, also where an ID could not be generated; the store grows by just the IDs that could.
pub increase-counts :
    (m : Semaphore) (tb cb : Backoff) (ids : List (Option String)) (now : ℕ)
    (r : Reconciler m tb cb)
    → IsWellFormed r.store
    → AreUnused ids now r.store
    → (length (increase m tb cb ids now r).1 ≡ length ids)
      × (size (increase m tb cb ids now r).0.store ≡ size r.store + generated ids)
unfolding increase
increase-counts m tb cb ids now r w unused = add_intents-counts ids now r.store w unused
