-- ===== src/Creation/Ends.antt =====
-- vcd.go, `createInstance`: what a run has asked of vCD and recorded when it ends.
use fleeting_plugin_vcd.Base.{
  ◌≡◌, refl, sym, subst, ap, ◌∙◌, ◌≢◌, ℕ, String, eq_iff, none, some, List, [], ◌∷◌, arith, inl,
  inr, lookup, lookup-put, Option-cases,
}
use fleeting_plugin_vcd.Config.{Plugin}
use fleeting_plugin_vcd.Creation.Order.{create_plan, Adds-look_up, Adds-build}
use fleeting_plugin_vcd.Creation.Run.{
  own_name, hand_over, suffix_or_raise, look_up, choose_name, settle_create, run_named,
  create_instance,
}
use fleeting_plugin_vcd.Reconciler.Finish.{
  CreateResult, CreateOutcome, created, create_failed, without, load_or_store,
}
use fleeting_plugin_vcd.Vcd.{Request, Env, World, Result, ok, err, continue, ◌>>=◌, ◌>>◌}
use fleeting_plugin_vcd.Vcd.Plans.{
  changes, Step, Follows, Begins, Begins-nil, Follows-nil, Since, Grows, returns, raises,
}
use mathlib.Core.List.{◌++◌, append-nil}
use Prim.Native.String.{◌++◌ as str_append}

-- A name that `generateVMName` makes.
abbrev pub IsGenerated : Plugin → String → Type 0
IsGenerated g name = (end : String) × (name ≡ str_append g.vapp_name_prefix (str_append "-" end))

-- How the part before the creation ends: nothing is changed, and a chosen name is in flight.
data Named (g : Plugin) (v : World) : Result String × World → Type 0 where
  named :
      {name : String} {w : World}
      → IsGenerated g name
      → changes w.log ≡ changes v.log
      → w.inflight_creates ≡ name ∷ v.inflight_creates
      → w.failed_create_cleanups ≡ v.failed_create_cleanups
      → Named g v (ok name, w)
  nameless :
      {e : String} {w : World}
      → changes w.log ≡ changes v.log
      → w.inflight_creates ≡ v.inflight_creates
      → w.failed_create_cleanups ≡ v.failed_create_cleanups
      → Named g v (err e, w)

module _ (env : Env) (g : Plugin) where
  choose_name-Named : (v : World) → Named g v (choose_name env g v)
  unfolding choose_name suffix_or_raise own_name ◌>>=◌
  choose_name-Named v = elim (Option-cases (env.suffix v.log)) [
    | inl none_left ↦ rw none_left (nameless refl refl refl)
    | inr (end, e) ↦ rw e (named (end, refl) refl refl refl)
  ]

  Named-after : {v w : World} {x : Result String × World} → Since v w [] → Named g w x → Named g v x
  Named-after {v} s (named {name = name} gen c i f) =
      named gen (c ∙ s.made ∙ append-nil (changes v.log)) (i ∙ ap (λ l. name ∷ l) s.inflight)
        (f ∙ s.cleanups)
  Named-after {v} s (nameless c i f) =
      nameless (c ∙ s.made ∙ append-nil (changes v.log)) (i ∙ s.inflight) (f ∙ s.cleanups)

  continue-Named :
      {v : World} {x : Result (Unit {0}) × World}
      → Grows [] v x
      → Named g v (continue x.0 (λ _. choose_name env g) x.1)
  unfolding continue
  continue-Named {v} (returns {w = w} {rs = rs} s f) =
      Named-after (subst (λ l. Since v w l) (Follows-nil f) s) (choose_name-Named w)
  continue-Named {v} (raises {w = w} s b) =
      Named-after (subst (λ l. Since v w l) (Begins-nil b) s) (nameless refl refl refl)

  start-Named : (v : World) → Named g v ((look_up env g >> choose_name env g) v)
  unfolding ◌>>=◌
  start-Named v = continue-Named ((Adds-look_up env g).at v)

-- The requests that the run has made to change vCD, for a name that it chose, if any.
abbrev pub IsPlanned : Env → Plugin → List Request → CreateOutcome → Type 0
IsPlanned env g rs (created c) =
    (name : String) × IsGenerated g name × Follows (create_plan env g name) rs
IsPlanned env g rs (create_failed e none) = rs ≡ []
IsPlanned env g rs (create_failed e (some name)) =
    IsGenerated g name × Begins (create_plan env g name) rs

-- What the run leaves in the maps of names.
abbrev pub IsOwned : Env → Plugin → World → CreateOutcome × World → Type 0
IsOwned env g v (created c, w) =
    (name : String) × IsGenerated g name
    × (w.inflight_creates ≡ name ∷ v.inflight_creates)
    × (w.failed_create_cleanups ≡ v.failed_create_cleanups)
IsOwned env g v (create_failed e none, w) =
    (w.inflight_creates ≡ v.inflight_creates)
    × (w.failed_create_cleanups ≡ v.failed_create_cleanups)
IsOwned env g v (create_failed e (some name), w) =
    IsGenerated g name
    × (w.inflight_creates ≡ without name v.inflight_creates)
    × (lookup name w.failed_create_cleanups ≢ none)
    × (w.failed_create_cleanups ≡ load_or_store name (env.clock w.log) v.failed_create_cleanups)

lookup-load_or_store :
    (name : String) (now : ℕ) (m : List (String × ℕ))
    → lookup name (load_or_store name now m) ≢ none
unfolding load_or_store
lookup-load_or_store name now m h = elim (Option-cases (lookup name m)) [
  | inl missing ↦ ground (arith, missing, h, lookup-put name name now m, eq_iff name name)
  | inr (since, kept) ↦ ground (arith, kept, h)
]

without_head : (name : String) (ns : List String) → without name (name ∷ ns) ≡ without name ns
unfolding without
without_head name ns = ground (arith, eq_iff name name)

module _ (env : Env) (g : Plugin) where
  settle_create-IsPlanned :
      {v : World} {name : String} {x : Result CreateResult × World}
      → IsGenerated g name
      → Grows (create_plan env g name) v x
      → let y = settle_create env g name x in
        (rs : List Request) × (changes y.1.log ≡ changes v.log ++ rs) × IsPlanned env g rs y.0
  unfolding settle_create hand_over
  settle_create-IsPlanned {name = name} gen (returns {rs = rs} s f) = (rs, s.made, (name, gen, f))
  settle_create-IsPlanned gen (raises {rs = rs} s b) = (rs, s.made, (gen, b))

  run_named-IsPlanned :
      {v : World} {x : Result String × World}
      → Named g v x
      → let y = run_named env g x in
        (rs : List Request) × (changes y.1.log ≡ changes v.log ++ rs) × IsPlanned env g rs y.0
  unfolding run_named
  run_named-IsPlanned {v} (nameless c i f) = ([], c ∙ sym (append-nil (changes v.log)), refl)
  run_named-IsPlanned {v} (named {name = name} {w = w} gen c i f) =
      let (rs, made, planned) = settle_create-IsPlanned gen ((Adds-build env g name).at w) in
      (rs, made ∙ ap (λ l. l ++ rs) c, planned)

  -- Whatever vCD answers: `createInstance` asks vCD for changes only in the order of its plan (the
  -- empty vApp under a generated name, the instance group's tag, the network, the VM, the
  -- credentials, TPM where needed, the CPUs, the memory, the disk where needed, the power), with the
  -- configured values. The vApp, the network and the VM are asked for once, but for attempts that
  -- vCD rejects because of its operation limit; any other request may be sent several times in a
  -- row. If it returns a result it has asked for all but the two optional ones, if it fails for the
  -- plan up to some point, and if it fails before it has chosen a name for nothing.
  pub create_instance-IsPlanned :
      (v : World)
      → (rs : List Request) × (changes (create_instance env g v).1.log ≡ changes v.log ++ rs)
        × IsPlanned env g rs (create_instance env g v).0
  unfolding create_instance
  create_instance-IsPlanned v = run_named-IsPlanned (start-Named env g v)

  settle_create-IsOwned :
      (u : World) {v : World} {name : String} {x : Result CreateResult × World} {p : List Step}
      → IsGenerated g name
      → v.inflight_creates ≡ name ∷ u.inflight_creates
      → v.failed_create_cleanups ≡ u.failed_create_cleanups
      → Grows p v x
      → IsOwned env g u (settle_create env g name x)
  unfolding settle_create hand_over
  settle_create-IsOwned u {name = name} gen i f (returns s _) =
      (name, gen, s.inflight ∙ i, s.cleanups ∙ f)
  settle_create-IsOwned u {name = name} gen i f (raises {w = w} s _) =
      let same : w.failed_create_cleanups ≡ u.failed_create_cleanups = s.cleanups ∙ f in
      (
        gen,
        ap (λ l. without name l) (s.inflight ∙ i) ∙ without_head name u.inflight_creates,
        lookup-load_or_store name _ w.failed_create_cleanups,
        ap (λ l. load_or_store name (env.clock w.log) l) same,
      )

  run_named-IsOwned :
      {v : World} {x : Result String × World} → Named g v x → IsOwned env g v (run_named env g x)
  unfolding run_named
  run_named-IsOwned (nameless c i f) = (i, f)
  run_named-IsOwned {v} (named {name = name} {w = w} gen c i f) =
      settle_create-IsOwned v gen i f ((Adds-build env g name).at w)

  -- Whatever vCD answers: when `createInstance` fails after it has chosen a name, the name stands
  -- among the failed-create cleanups, added with the time of the failure unless it was there
  -- before, and is no longer in flight; when it fails earlier both maps are as before; when it returns a result the generated
  -- name is in flight besides those before, and the cleanups are as before.
  pub create_instance-IsOwned : (v : World) → IsOwned env g v (create_instance env g v)
  unfolding create_instance
  create_instance-IsOwned v = run_named-IsOwned (start-Named env g v)
