-- ===== src/Reconciler/Made.antt =====
-- reconciler.go, `doCreate`, with `UpdateInstance` of store.go: what becomes of a create that
-- succeeds.
use fleeting_plugin_vcd.Base.{
  ℕ, ◌≡◌, refl, ◌≢◌, inl, inr, String, true, some, lookup, arith, eq_iff, Option-cases,
}
use fleeting_plugin_vcd.Backoff.{Backoff}
use fleeting_plugin_vcd.Breaker.{record_create_success}
use fleeting_plugin_vcd.Instance.{running, creating, Instance}
use fleeting_plugin_vcd.Reconciler.{Settings, Reconciler, new_reconciler, creates}
use fleeting_plugin_vcd.Reconciler.Finish.{
  CreateResult, created, record_created, do_create, end_create,
}
use fleeting_plugin_vcd.Reconciler.Retry.{held_instance}
use fleeting_plugin_vcd.Reconciler.Single.{creates_of}
use fleeting_plugin_vcd.Reconciler.Single.Ends.{removed_creates}
use fleeting_plugin_vcd.Reconciler.Single.Reach.{
  ExpectedSteps, ExpectedSteps-IsSingle, new_reconciler-IsSingle,
}
use fleeting_plugin_vcd.Reconciler.Steps.{is_running}
use fleeting_plugin_vcd.Semaphore.{Semaphore}
use fleeting_plugin_vcd.Store.{new_store, get_by_intent_id, get_by_vapp_href}
use fleeting_plugin_vcd.Store.Index.Learnt.{unless_at, update_instance-found}
use fleeting_plugin_vcd.Store.Phases.{phase_of}

module _ (m : Semaphore) (tb cb rb : Backoff) where
  -- In every state reached as for `create_runs_once`: when a running create succeeds with a vApp,
  -- its instance is Running with the address that the create reported, and is found both under
  -- its intent ID and under the vApp's HREF; an instance that a poll had made of the same vApp
  -- is forgotten, and every other is found as it was; no create of the intent runs any more, and
  -- the count of failures in a row is 0.
  pub created-found :
      (c : Settings) (start : ℕ) (r : Reconciler m tb cb) (id : String) (made : CreateResult)
      (now : ℕ)
      → ExpectedSteps m tb cb rb (new_reconciler m tb cb c new_store start) r
      → is_running (creates id) r.running ≡ true
      → made.vapp_href ≢ ""
      → let s = end_create m tb cb rb id now (created made) r in
        (j : Instance) × (get_by_intent_id s.store id ≡ some j)
        × (get_by_vapp_href s.store made.vapp_href ≡ some j)
        × (j.phase ≡ running)
        × (j.ip_address ≡ made.ip_address)
        × ((k : String)
            → k ≢ id
            → get_by_intent_id s.store k ≡ unless_at made.vapp_href (get_by_intent_id r.store k))
        × (creates_of id s.running ≡ 0)
        × (s.breaker.consecutive_create_failures ≡ 0)
  unfolding end_create do_create record_created record_create_success
  created-found c start r id made now rs h ne =
      let v = ExpectedSteps-IsSingle m tb cb rb rs (new_reconciler-IsSingle m tb cb rb c start) in
      let is_creating : phase_of r.store id ≡ some creating =
        ground (arith, v.busy id, removed_creates id id r.running h, eq_iff id id) in
      elim (Option-cases (lookup id r.store.instances)) [
        | inl missing ↦ absurd (ground (arith, missing, is_creating))
        | inr (p, held) ↦
            let bare : (r.store.cell p).id ≡ "" =
              ground (arith, held, is_creating, v.sound.bare id p) in
            let (by_id, by_href, others) =
              update_instance-found r.store id (r.store.cell p) (record_created now made) now
                v.sound.well (held_instance r.store id p held) bare ne
                (v.sound.well.named id p held) in
            (
              _,
              by_id,
              by_href,
              refl,
              refl,
              others,
              ground (arith, v.once id, removed_creates id id r.running h, eq_iff id id),
              refl,
            )
      ]
