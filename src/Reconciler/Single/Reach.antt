-- ===== src/Reconciler/Single/Reach.antt =====
-- reconciler.go: creates stay single in every state that the program can reach, as long as vCD
-- lists vApps with HREFs and the IDs of new intents are new.
use fleeting_plugin_vcd.Base.{
  ℕ, ◌≤◌, ◌≡◌, refl, ap, ◌⊎◌, inl, inr, String, true, false, Option, none, some, List, [], ◌∷◌,
  lookup, arith, eq_iff, lookup-put, Option-cases,
}
use fleeting_plugin_vcd.Backoff.{Backoff}
use fleeting_plugin_vcd.Instance.{Instance, creating}
use fleeting_plugin_vcd.Reconciler.{
  Settings, Reconciler, new_reconciler, Operation, deletes, cleans,
}
use fleeting_plugin_vcd.Reconciler.Cycle.{
  poll, gc_check, prune_store, add_intents, increase, decrease,
}
use fleeting_plugin_vcd.Reconciler.Dispatch.{dispatch_create_cleanups}
use fleeting_plugin_vcd.Reconciler.Finish.{
  created, create_failed, retry_create, retry_delete, record_created, record_deleted,
  remove_operation, do_create, end_create, do_delete, end_delete, end_cleanup,
}
use fleeting_plugin_vcd.Reconciler.Cycle.{hold_after_poll}
use fleeting_plugin_vcd.Reconciler.Hold.Release.{update_startup_hold-exact}
use fleeting_plugin_vcd.Reconciler.Single.{creates_of, deletes_of, IsSingle, quiet-IsSingle}
use fleeting_plugin_vcd.Reconciler.Single.Ends.{
  IsFreshListing, poll_vcd-IsQuiet, gc_each-IsQuiet, mark_each_for_deletion-IsQuiet,
  deletes_of-is_running, finish_create, seen-IsSingle, left-IsSingle,
}
use fleeting_plugin_vcd.Reconciler.Single.Loops.{
  delete_update, dispatch_creates-IsSingle, dispatch_deletes-IsSingle, clean_each-IsSingle,
}
use fleeting_plugin_vcd.Reconciler.Steps.{
  is_running, Step, polls, holds, starts_creates, starts_deletes, starts_cleanups, collects, prunes,
  names_vapp, is_throttled, ends_create, ends_delete, ends_cleanup, increases, decreases,
}
use fleeting_plugin_vcd.Semaphore.{Semaphore}
use fleeting_plugin_vcd.Store.{Store, new_store}
use fleeting_plugin_vcd.Store.Index.{new_store-IsWellFormed}
use fleeting_plugin_vcd.Store.Index.Add.{add_create_intent-IsWellFormed}
use fleeting_plugin_vcd.Store.Ops.{update_instance, add_create_intent}
use fleeting_plugin_vcd.Store.Phases.{is_unmade, unmade, phase_of, prune-IsQuiet}
use fleeting_plugin_vcd.Store.Query.{get_running_for_gc}

-- Each new ID is in use neither in the store nor by a running delete.
abbrev pub AreNew : List Operation → List (Option String) → ℕ → Store → Type 0
AreNew ops [] now s = Unit
AreNew ops (none ∷ ids) now s = AreNew ops ids now s
AreNew ops (some id ∷ ids) now s =
    (lookup id s.instances ≡ none)
    × (deletes_of id ops ≡ 0)
    × AreNew ops ids now (add_create_intent id now s)

module _ (m : Semaphore) (tb cb : Backoff) where
  abbrev Single : Reconciler m tb cb → Type 0
  Single = IsSingle m tb cb

  add_create_intent-IsSingle :
      (id : String) (now : ℕ) (r : Reconciler m tb cb)
      → lookup id r.store.instances ≡ none
      → deletes_of id r.running ≡ 0
      → Single r
      → Single (record r { store = add_create_intent id now r.store })
  unfolding add_create_intent
  add_create_intent-IsSingle id now r new idle v = record {
    sound = record {
      well = add_create_intent-IsWellFormed id now r.store v.sound.well new;
      bare = λ k p e. ground (
        arith,
        eq_iff id k,
        lookup-put id k r.store.next r.store.instances,
        v.sound.bare k p,
        v.sound.well.allocated k p,
      );
    };
    busy = λ k. elim (Option-cases (lookup k r.store.instances)) [
      | inl missing ↦
          ground
            (arith, eq_iff id k, lookup-put id k r.store.next r.store.instances, v.busy k, missing)
      | inr (p, held) ↦ ground (
        arith,
        eq_iff id k,
        lookup-put id k r.store.next r.store.instances,
        v.busy k,
        v.sound.well.allocated k p,
      )
    ];
    once = v.once;
    made = λ k. elim (Option-cases (lookup k r.store.instances)) [
      | inl missing ↦
          ground
            (arith, eq_iff id k, lookup-put id k r.store.next r.store.instances, v.made k, missing)
      | inr (p, held) ↦ ground (
        arith,
        eq_iff id k,
        lookup-put id k r.store.next r.store.instances,
        v.made k,
        v.sound.well.allocated k p,
      )
    ];
  }

  add_intents-IsSingle :
      (ids : List (Option String)) (now : ℕ) (r : Reconciler m tb cb)
      → AreNew r.running ids now r.store
      → Single r
      → Single (record r { store = (add_intents ids now r.store).0 })
  unfolding add_intents
  add_intents-IsSingle [] now r new v = v
  add_intents-IsSingle (none ∷ ids) now r new v = add_intents-IsSingle ids now r new v
  add_intents-IsSingle (some id ∷ ids) now r new v =
      add_intents-IsSingle ids now (record r { store = add_create_intent id now r.store }) new.2
        (add_create_intent-IsSingle id now r new.0 new.1 v)

module _ (m : Semaphore) (tb cb rb : Backoff) where
  -- What the program relies on: a poll lists vApps that have an HREF, which is no intent ID unless
  -- it is tracked, and the IDs generated for new intents are new.
  abbrev pub IsExpected : {r s : Reconciler m tb cb} → Step m tb cb rb r s → Type 0
  IsExpected {r} (polls a now) = IsFreshListing a.listing r.store
  IsExpected {r} (increases ids now) = AreNew r.running ids now r.store
  IsExpected _ = Unit

  pub data ExpectedSteps (r : Reconciler m tb cb) : Reconciler m tb cb → Type 0 where
    still : ExpectedSteps r r
    further :
        {s t : Reconciler m tb cb}
        → ExpectedSteps r s
        → (st : Step m tb cb rb s t) → IsExpected st
        → ExpectedSteps r t

  -- The update at the end of a delete, which leaves the list.
  ended_delete :
      (id href : String) (fn : Instance → Instance) (now : ℕ)
      → ((i : Instance) → ((fn i).id ≡ i.id) × ((fn i).intent_id ≡ i.intent_id))
      → ((i : Instance) → is_unmade (fn i).phase ≡ false)
      → (r s : Reconciler m tb cb) → s.store ≡ update_instance id fn now r.store
      → s.running ≡ remove_operation (deletes id href) r.running
      → is_running (deletes id href) r.running ≡ true
      → IsSingle m tb cb r
      → IsSingle m tb cb s
  ended_delete id href fn now same out r s at_store at_running h v =
      let made : unmade (phase_of r.store id) ≡ false =
        ground (arith, v.made id, deletes_of-is_running id href r.running h) in
      let updated : Reconciler m tb cb = record r { store = update_instance id fn now r.store } in
      seen-IsSingle m tb cb _ s at_store at_running (
        left-IsSingle m tb cb (deletes id href) updated refl (
          quiet-IsSingle m tb cb r updated (delete_update m tb cb id fn now same out r made v)
            (λ k. (refl, refl)) v))

  Step-IsSingle :
      {r s : Reconciler m tb cb} (st : Step m tb cb rb r s)
      → IsExpected st
      → IsSingle m tb cb r
      → IsSingle m tb cb s
  unfolding poll gc_check prune_store dispatch_create_cleanups end_create do_create end_delete
      do_delete end_cleanup record_created record_deleted retry_create retry_delete increase
      decrease
  Step-IsSingle {r} (polls a now) x v =
      quiet-IsSingle m tb cb r _ (poll_vcd-IsQuiet _ now a.listing r.store x v.sound)
        (λ k. (refl, refl)) v
  Step-IsSingle {r} (holds now) x v =
      unfold hold_after_poll in
      let same = update_startup_hold-exact m tb cb now r.poll_complete r in
      seen-IsSingle m tb cb r _ (ap (λ q. q.store) same.2) (ap (λ q. q.running) same.2) v
  Step-IsSingle {r} (starts_creates now) x v = dispatch_creates-IsSingle m tb cb now r v
  Step-IsSingle {r} (starts_deletes now) x v = dispatch_deletes-IsSingle m tb cb now r v
  Step-IsSingle {r} (starts_cleanups now) x v =
      clean_each-IsSingle m tb cb now r.failed_create_cleanups r v
  Step-IsSingle {r} (collects now) x v =
      quiet-IsSingle m tb cb r _
        (gc_each-IsQuiet now (get_running_for_gc r.settings.max_instance_age now r.store) r.store
          v.sound)
        (λ k. (refl, refl)) v
  Step-IsSingle {r} (prunes now) x v =
      quiet-IsSingle m tb cb r _ (prune-IsQuiet now r.store v.sound) (λ k. (refl, refl)) v
  Step-IsSingle {r} (names_vapp name) x v = seen-IsSingle m tb cb r _ refl refl v
  Step-IsSingle {r} (is_throttled now) x v = seen-IsSingle m tb cb r _ refl refl v
  Step-IsSingle {r} (ends_create id now (created c) h) x v =
      seen-IsSingle m tb cb _ _ refl refl
        (finish_create m tb cb id (record_created now c) now (λ i. refl) (λ i. inl refl) r h v)
  Step-IsSingle {r} (ends_create id now (create_failed error none) h) x v =
      seen-IsSingle m tb cb _ _ refl refl
        (finish_create m tb cb id (retry_create rb now error) now (λ i. refl) (λ i. inr refl) r h v)
  Step-IsSingle {r} (ends_create id now (create_failed error (some name)) h) x v =
      seen-IsSingle m tb cb _ _ refl refl
        (finish_create m tb cb id (retry_create rb now error) now (λ i. refl) (λ i. inr refl) r h v)
  Step-IsSingle {r} (ends_delete id href now none h) x v =
      ended_delete id href (record_deleted now) now (λ i. (refl, refl)) (λ i. refl) r _ refl refl h
        v
  Step-IsSingle {r} (ends_delete id href now (some error) h) x v =
      ended_delete id href (retry_delete rb now error) now (λ i. (refl, refl)) (λ i. refl) r _ refl
        refl h v
  Step-IsSingle {r} (ends_cleanup name at now result h) x v =
      seen-IsSingle m tb cb _ _ refl refl (left-IsSingle m tb cb (cleans name at) r refl v)
  Step-IsSingle {r} (increases ids now) x v = add_intents-IsSingle m tb cb ids now r x v
  Step-IsSingle {r} (decreases ids now) x v =
      quiet-IsSingle m tb cb r _ (mark_each_for_deletion-IsQuiet ids now r.store v.sound)
        (λ k. (refl, refl)) v

  pub ExpectedSteps-IsSingle :
      {r s : Reconciler m tb cb} → ExpectedSteps r s → IsSingle m tb cb r → IsSingle m tb cb s
  ExpectedSteps-IsSingle still v = v
  ExpectedSteps-IsSingle (further rs st x) v = Step-IsSingle st x (ExpectedSteps-IsSingle rs v)

  pub new_reconciler-IsSingle :
      (c : Settings) (now : ℕ) → IsSingle m tb cb (new_reconciler m tb cb c new_store now)
  unfolding new_reconciler new_store lookup
  new_reconciler-IsSingle c now = record {
    sound = record { well = new_store-IsWellFormed; bare = λ k p e. cc };
    busy = λ k. inl refl;
    once = λ k. omega arith;
    made = λ k. inl refl;
  }

  -- In every state reached while vCD lists vApps with fresh HREFs and new intents have new IDs,
  -- whatever the interleaving: for each intent ID at most one create runs, and while one runs the
  -- intent's instance is in the store and Creating, and no delete runs for it.
  pub create_runs_once :
      (c : Settings) (start : ℕ) (r : Reconciler m tb cb) (id : String)
      → ExpectedSteps (new_reconciler m tb cb c new_store start) r
      → (creates_of id r.running ≤ 1)
        × ((creates_of id r.running ≡ 0)
            ⊎ ((phase_of r.store id ≡ some creating) × (deletes_of id r.running ≡ 0)))
  create_runs_once c start r id rs =
      let v = ExpectedSteps-IsSingle rs (new_reconciler-IsSingle c start) in
      ground (arith, v.once id, v.busy id, v.made id)
