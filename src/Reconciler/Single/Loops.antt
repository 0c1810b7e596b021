-- ===== src/Reconciler/Single/Loops.antt =====
-- reconciler.go: the dispatch loops keep creates single.
use fleeting_plugin_vcd.Base.{
  ℕ, ◌≡◌, refl, ◌≢◌, inl, inr, String, false, some, List, [], ◌∷◌, lookup, arith, eq_iff, str_eq,
  Bool-cases, Option-cases,
}
use fleeting_plugin_vcd.Backoff.{Backoff}
use fleeting_plugin_vcd.Breaker.{is_active}
use fleeting_plugin_vcd.Instance.{pending_create, Instance}
use fleeting_plugin_vcd.Limiter.{op_create, op_delete, try_acquire}
use fleeting_plugin_vcd.Reconciler.{Reconciler, creates, deletes, cleans}
use fleeting_plugin_vcd.Reconciler.Dispatch.{
  mark_creating, mark_deleting, mark_deleted, launch, create_each, dispatch_creates, delete_each,
  dispatch_deletes, clean_each,
}
use fleeting_plugin_vcd.Reconciler.Dispatch.Started.{
  dispatch_holding, dispatch_active, dispatch_open,
}
use fleeting_plugin_vcd.Reconciler.Single.{
  IsApart, AllPending, AllMade, get_pending_creates-AllPending, get_pending_deletes-AllMade,
  IsSingle, quiet-IsSingle,
}
use fleeting_plugin_vcd.Semaphore.{Semaphore}
use fleeting_plugin_vcd.Store.{Store}
use fleeting_plugin_vcd.Store.Ops.{contains, update_instance}
use fleeting_plugin_vcd.Store.Phases.{is_unmade, unmade, phase_of, Alike, IsQuiet, IsQuiet-refl}
use fleeting_plugin_vcd.Store.Phases.Update.{
  after-IsSound, phase-after, others-Alike, update_instance-IsQuiet,
}
use fleeting_plugin_vcd.Store.Query.{get_pending_creates, get_pending_deletes}

AllPending-others :
    (is : List Instance) (k : String) (s t : Store)
    → ((j : String) → j ≢ k → Alike (phase_of t j) (phase_of s j))
    → IsApart k is
    → AllPending is s
    → AllPending is t
AllPending-others [] k s t alike apart pending = tt
AllPending-others (i ∷ is) k s t alike apart pending = (
  ground (arith, alike i.intent_id apart.0, pending.0),
  pending.1,
  AllPending-others is k s t alike apart.1 pending.2,
)

AllMade-quiet : (is : List Instance) (s t : Store) → IsQuiet s t → AllMade is s → AllMade is t
AllMade-quiet [] s t q made = tt
AllMade-quiet (i ∷ is) s t q made =
    (ground (arith, q.1 i.intent_id, made.0), AllMade-quiet is s t q made.1)

module _ (m : Semaphore) (tb cb : Backoff) where
  abbrev Single : Reconciler m tb cb → Type 0
  Single = IsSingle m tb cb

  -- A create starts for an instance that waits for one.
  module _ (now : ℕ) (id : String) (r : Reconciler m tb cb) (v : Single r)
      (pending : phase_of r.store id ≡ some pending_create) where
    abbrev launched : Reconciler m tb cb
    launched = launch m tb cb (creates id) id (mark_creating now) now r

    launched-Single :
        Single launched
        × ((j : String) → j ≢ id → Alike (phase_of launched.store j) (phase_of r.store j))
    unfolding launch mark_creating
    launched-Single = elim (Option-cases (lookup id r.store.instances)) [
      | inl missing ↦ absurd (ground (arith, missing, pending))
      | inr (p, held) ↦
          let bare : (r.store.cell p).id ≡ "" = ground (arith, held, pending, v.sound.bare id p) in
          let sound =
            after-IsSound id (mark_creating now) now r.store v.sound p held (refl, inl refl)
              (inr bare) in
          let own =
            phase-after id (mark_creating now) now r.store v.sound p held (refl, inl refl)
              (inr bare) in
          let others =
            others-Alike id (mark_creating now) now r.store v.sound p held (refl, inl refl)
              (inr bare) in
          (
            record {
              sound = sound;
              busy = λ k. ground (arith, eq_iff id k, own, others k, v.busy k, pending);
              once = λ k. ground (arith, eq_iff id k, v.once k, v.busy k, pending);
              made = λ k. ground (arith, eq_iff id k, own, others k, v.made k, pending);
            },
            others,
          )
    ]

  pub create_each-IsSingle :
      (now : ℕ) (is : List Instance) (r : Reconciler m tb cb)
      → AllPending is r.store
      → Single r
      → Single (create_each m tb cb now is r)
  unfolding create_each
  create_each-IsSingle now [] r pending v = v
  create_each-IsSingle now (i ∷ is) r pending v =
      let (limiter, slot) = try_acquire m now r.throttle op_create r.limiter in
      let taken : Reconciler m tb cb = record r { limiter = limiter } in
      let free : Single taken =
        quiet-IsSingle m tb cb r taken (IsQuiet-refl r.store v.sound) (λ id. (refl, refl)) v in
      let (v', others) = launched-Single now i.intent_id taken free pending.0 in
      elim (Bool-cases slot) [
        | inl granted ↦
            rw (granted, create_each)
              (create_each-IsSingle now is (launched now i.intent_id taken free pending.0)
                (AllPending-others is i.intent_id r.store _ others pending.1 pending.2) v')
        | inr refused ↦ rw (refused, create_each) free
      ]

  pub dispatch_creates-IsSingle :
      (now : ℕ) (r : Reconciler m tb cb) → Single r → Single (dispatch_creates m tb cb now r)
  dispatch_creates-IsSingle now r v = elim (Bool-cases r.startup_hold) [
    | inl holding ↦ rw (dispatch_holding m tb cb now r holding) v
    | inr released ↦ elim (Bool-cases (is_active cb now r.breaker)) [
      | inl active ↦
          rw (dispatch_active m tb cb now r released active)
            (quiet-IsSingle m tb cb r _ (IsQuiet-refl r.store v.sound) (λ id. (refl, refl)) v)
      | inr closed ↦ rw (dispatch_open m tb cb now r released closed) (
          create_each-IsSingle now (get_pending_creates now r.store) r
            (get_pending_creates-AllPending r.store v.sound.well now) v)
    ]
  ]

  -- A store update that a delete makes.
  module _ (id : String) (fn : Instance → Instance) (now : ℕ)
      (same : (i : Instance) → ((fn i).id ≡ i.id) × ((fn i).intent_id ≡ i.intent_id))
      (out : (i : Instance) → is_unmade (fn i).phase ≡ false) where
    pub delete_update :
        (r : Reconciler m tb cb)
        → unmade (phase_of r.store id) ≡ false
        → Single r
        → IsQuiet r.store (update_instance id fn now r.store)
    delete_update r made v = update_instance-IsQuiet id fn now r.store v.sound made same out

  pub delete_each-IsSingle :
      (now : ℕ) (is : List Instance) (r : Reconciler m tb cb)
      → AllMade is r.store
      → Single r
      → Single (delete_each m tb cb now is r)
  unfolding delete_each launch mark_deleted mark_deleting
  delete_each-IsSingle now [] r made v = v
  delete_each-IsSingle now (i ∷ is) r made v =
      let (limiter, slot) = try_acquire m now r.throttle op_delete r.limiter in
      let taken : Reconciler m tb cb = record r { limiter = limiter } in
      let dropped : Reconciler m tb cb = record r {
        store = update_instance i.intent_id (mark_deleted now) now r.store;
      } in
      let deleting =
        launch m tb cb (deletes i.intent_id i.id) i.intent_id (mark_deleting now) now taken in
      let gone =
        delete_update i.intent_id (mark_deleted now) now (λ x. (refl, refl)) (λ x. refl) r made.0
          v in
      let going =
        delete_update i.intent_id (mark_deleting now) now (λ x. (refl, refl)) (λ x. refl) r made.0
          v in
      elim (Bool-cases (str_eq i.id "")) [
        | inl unmade_yet ↦
            rw (unmade_yet, delete_each)
              (delete_each-IsSingle now is dropped (AllMade-quiet is r.store _ gone made.1)
                (quiet-IsSingle m tb cb r dropped gone (λ id. (refl, refl)) v))
        | inr exists ↦ elim (Bool-cases slot) [
          | inl granted ↦
              rw (exists, granted, delete_each)
                (delete_each-IsSingle now is deleting (AllMade-quiet is r.store _ going made.1)
                  (record {
                    sound = going.0;
                    busy = λ k. ground (arith, going.1 k, v.busy k);
                    once = v.once;
                    made = λ k. ground (arith, eq_iff i.intent_id k, going.1 k, v.made k, made.0);
                  }))
          | inr refused ↦
              rw (exists, refused, delete_each)
                (quiet-IsSingle m tb cb r taken (IsQuiet-refl r.store v.sound) (λ id. (refl, refl))
                  v)
        ]
      ]

  pub dispatch_deletes-IsSingle :
      (now : ℕ) (r : Reconciler m tb cb) → Single r → Single (dispatch_deletes m tb cb now r)
  unfolding dispatch_deletes
  dispatch_deletes-IsSingle now r v =
      delete_each-IsSingle now (get_pending_deletes now r.store) r
        (get_pending_deletes-AllMade r.store v.sound.well now) v

  pub clean_each-IsSingle :
      (now : ℕ) (names : List (String × ℕ)) (r : Reconciler m tb cb)
      → Single r
      → Single (clean_each m tb cb now names r)
  unfolding clean_each
  clean_each-IsSingle now [] r v = v
  clean_each-IsSingle now ((name, at) ∷ names) r v =
      let (limiter, slot) = try_acquire m now r.throttle op_delete r.limiter in
      let taken : Reconciler m tb cb = record r { limiter = limiter } in
      let cleaning : Reconciler m tb cb = record taken {
        background_deletes = name ∷ r.background_deletes;
        running = cleans name at ∷ r.running;
      } in
      let kept = IsQuiet-refl r.store v.sound in
      elim (Bool-cases (contains name r.background_deletes)) [
        | inl busy ↦ rw (busy, clean_each) (clean_each-IsSingle now names r v)
        | inr free ↦ elim (Bool-cases slot) [
          | inl granted ↦
              rw (free, granted, clean_each)
                (clean_each-IsSingle now names cleaning
                  (quiet-IsSingle m tb cb r cleaning kept (λ id. (refl, refl)) v))
          | inr refused ↦
              rw (free, refused, clean_each)
                (quiet-IsSingle m tb cb r taken kept (λ id. (refl, refl)) v)
        ]
      ]
