-- ===== src/Reconciler/Single/Ends.antt =====
-- reconciler.go: polls, ends of goroutines and calls of the API keep creates single.
use fleeting_plugin_vcd.Base.{
  ℕ, suc, ◌≤◌, ◌≡◌, refl, ◌≢◌, ◌⊎◌, ◌||◌, not, ◌==◌, if◌then◌else◌, inl, inr, String, Bool, true,
  false, Option, none, some, List, [], ◌∷◌, lookup, arith, eq_iff, str_eq, Bool-cases, Option-cases,
}
use fleeting_plugin_vcd.Backoff.{Backoff}
use fleeting_plugin_vcd.Instance.{creating, Instance}
use fleeting_plugin_vcd.Reconciler.{Reconciler, Operation, creates, deletes, cleans}
use fleeting_plugin_vcd.Reconciler.Cycle.{gc_each, mark_each_for_deletion}
use fleeting_plugin_vcd.Reconciler.Finish.{remove_operation}
use fleeting_plugin_vcd.Reconciler.Poll.{
  VApp, PollOps, Progress, poll_vapp, poll_vapps, known_hrefs, count_missing, is_empty, poll_vcd,
}
use fleeting_plugin_vcd.Reconciler.Poll.Listing.{AreFresh, AreFresh-step}
use fleeting_plugin_vcd.Reconciler.Poll.Steps.{
  PollStep, stays, observes, queues, poll_vapp-PollStep, IsFresh,
}
use fleeting_plugin_vcd.Reconciler.Single.{creates_of, deletes_of, IsSingle}
use fleeting_plugin_vcd.Reconciler.Steps.{is_running}
use fleeting_plugin_vcd.Semaphore.{Semaphore}
use fleeting_plugin_vcd.Store.{Store}
use fleeting_plugin_vcd.Store.Ops.{update_instance}
use fleeting_plugin_vcd.Store.Query.{size}
use fleeting_plugin_vcd.Store.Index.Update.{KeepsKeys}
use fleeting_plugin_vcd.Store.Phases.{
  is_unmade, phase_of, IsSound, IsQuiet, IsQuiet-refl, IsQuiet-trans, update_from_vcd-IsQuiet,
  add_leftover-IsQuiet, mark_disappeared-IsQuiet, mark_gc-IsQuiet, mark_for_deletion-IsQuiet,
}
use fleeting_plugin_vcd.Store.Phases.Update.{after-IsSound, phase-after, others-Alike}

-- A poll is quiet.
PollStep-IsQuiet :
    {h : String} {s t : Store} → PollStep h s t → h ≢ "" → IsFresh h s → IsSound s → IsQuiet s t
PollStep-IsQuiet {h} {s} stays ne f v = IsQuiet-refl s v
PollStep-IsQuiet {h} {s} (observes o now) ne f v = update_from_vcd-IsQuiet h o now s v
PollStep-IsQuiet {h} {s} (queues name now) ne f v = add_leftover-IsQuiet h name now s v ne f

poll_vapps-IsQuiet :
    (ops : PollOps) (now : ℕ) (vs : List VApp) (s : Progress)
    → AreFresh vs s.store
    → IsSound s.store
    → IsQuiet s.store (poll_vapps ops now vs s).store
unfolding poll_vapps
poll_vapps-IsQuiet ops now [] s f v = IsQuiet-refl s.store v
poll_vapps-IsQuiet ops now (x ∷ vs) s f v =
    let st = poll_vapp-PollStep ops now x s in
    let q = PollStep-IsQuiet st f.0 f.1 v in
    IsQuiet-trans s.store _ _ q
      (poll_vapps-IsQuiet ops now vs (poll_vapp ops now x s) (AreFresh-step vs st f.2) q.0)

count_missing-IsQuiet :
    (known : List String) (now : ℕ) (s : Store) → IsSound s → IsQuiet s (count_missing known now s)
unfolding count_missing
count_missing-IsQuiet known now s v = elim (Bool-cases (not (is_empty known) || size s == 0)) [
  | inl counted ↦ rw (counted, count_missing) (mark_disappeared-IsQuiet known now s v)
  | inr skipped ↦ rw (skipped, count_missing) (IsQuiet-refl s v)
]

-- The vApps of a listing, if there is one, are fresh.
abbrev pub IsFreshListing : Option (List VApp × List String) → Store → Type 0
IsFreshListing none s = Unit
IsFreshListing (some (vapps, unread)) s = AreFresh vapps s

pub poll_vcd-IsQuiet :
    (ops : PollOps) (now : ℕ) (listing : Option (List VApp × List String)) (s : Store)
    → IsFreshListing listing s
    → IsSound s
    → IsQuiet s (poll_vcd ops now listing s).0
unfolding poll_vcd
poll_vcd-IsQuiet ops now none s f v = IsQuiet-refl s v
poll_vcd-IsQuiet ops now (some (vapps, unread)) s f v =
    let q = poll_vapps-IsQuiet ops now vapps (record { store = s; skip_vm_reads = false }) f v in
    IsQuiet-trans s _ _ q (count_missing-IsQuiet (known_hrefs vapps unread) now _ q.0)

pub gc_each-IsQuiet :
    (now : ℕ) (is : List Instance) (s : Store) → IsSound s → IsQuiet s (gc_each now is s)
unfolding gc_each
gc_each-IsQuiet now [] s v = IsQuiet-refl s v
gc_each-IsQuiet now (i ∷ is) s v =
    let q = mark_gc-IsQuiet i.intent_id now s v in
    IsQuiet-trans s _ _ q (gc_each-IsQuiet now is _ q.0)

pub mark_each_for_deletion-IsQuiet :
    (ids : List String) (now : ℕ) (s : Store)
    → IsSound s
    → IsQuiet s (mark_each_for_deletion ids now s)
unfolding mark_each_for_deletion
mark_each_for_deletion-IsQuiet [] now s v = IsQuiet-refl s v
mark_each_for_deletion-IsQuiet (id ∷ ids) now s v =
    let q = mark_for_deletion-IsQuiet id now s v in
    IsQuiet-trans s _ _ q (mark_each_for_deletion-IsQuiet ids now _ q.0)

-- A create that ends leaves the list.
pub removed_creates :
    (id k : String) (ops : List Operation)
    → is_running (creates id) ops ≡ true
    → let rest = remove_operation (creates id) ops in
      (creates_of k ops ≡ (if str_eq id k then suc (creates_of k rest) else creates_of k rest))
      × (deletes_of k rest ≡ deletes_of k ops)
unfolding is_running remove_operation
removed_creates id k [] h = cc
removed_creates id k (creates j ∷ ops) h =
    ground (arith, eq_iff j id, eq_iff j k, eq_iff id k, removed_creates id k ops)
removed_creates id k (deletes j g ∷ ops) h = ground (arith, removed_creates id k ops)
removed_creates id k (cleans n t ∷ ops) h = ground (arith, removed_creates id k ops)

-- Any other operation that ends.
abbrev pub is_create : Operation → Bool
is_create (creates _) = true
is_create _ = false

pub removed_other :
    (op : Operation) (k : String) (ops : List Operation)
    → is_create op ≡ false
    → let rest = remove_operation op ops in
      (creates_of k rest ≡ creates_of k ops) × (deletes_of k rest ≤ deletes_of k ops)
unfolding remove_operation
removed_other op k [] h = (refl, omega arith)
removed_other (creates i) k (x ∷ ops) h = absurd (ground (arith, h))
removed_other (deletes i g) k (creates j ∷ ops) h =
    ground (arith, removed_other (deletes i g) k ops)
removed_other (deletes i g) k (deletes j l ∷ ops) h =
    ground (arith, removed_other (deletes i g) k ops)
removed_other (deletes i g) k (cleans n t ∷ ops) h =
    ground (arith, removed_other (deletes i g) k ops)
removed_other (cleans a b) k (creates j ∷ ops) h = ground (arith, removed_other (cleans a b) k ops)
removed_other (cleans a b) k (deletes j l ∷ ops) h =
    ground (arith, removed_other (cleans a b) k ops)
removed_other (cleans a b) k (cleans n t ∷ ops) h = ground (arith, removed_other (cleans a b) k ops)

-- A delete that runs is counted.
pub deletes_of-is_running :
    (id href : String) (ops : List Operation)
    → is_running (deletes id href) ops ≡ true
    → deletes_of id ops ≢ 0
unfolding is_running
deletes_of-is_running id href [] h = λ e. cc
deletes_of-is_running id href (creates j ∷ ops) h =
    ground (arith, deletes_of-is_running id href ops)
deletes_of-is_running id href (deletes j g ∷ ops) h =
    ground (arith, eq_iff j id, deletes_of-is_running id href ops)
deletes_of-is_running id href (cleans n t ∷ ops) h =
    ground (arith, deletes_of-is_running id href ops)

module _ (m : Semaphore) (tb cb : Backoff) where
  abbrev Single : Reconciler m tb cb → Type 0
  Single = IsSingle m tb cb

  -- The update at the end of a create, which leaves the list.
  module _ (id : String) (fn : Instance → Instance) (now : ℕ)
      (same : (i : Instance) → (fn i).intent_id ≡ i.intent_id)
      (out : (i : Instance) → (is_unmade (fn i).phase ≡ false) ⊎ ((fn i).id ≡ i.id)) where
    pub finish_create :
        (r : Reconciler m tb cb)
        → is_running (creates id) r.running ≡ true
        → Single r
        → Single (record r {
          store = update_instance id fn now r.store;
          running = remove_operation (creates id) r.running;
        })
    finish_create r h v =
        let is_creating : phase_of r.store id ≡ some creating =
          ground (arith, v.busy id, removed_creates id id r.running h, eq_iff id id) in
        elim (Option-cases (lookup id r.store.instances)) [
          | inl missing ↦ absurd (ground (arith, missing, is_creating))
          | inr (p, held) ↦
              let bare : (r.store.cell p).id ≡ "" =
                ground (arith, held, is_creating, v.sound.bare id p) in
              let keeps : KeepsKeys (fn (r.store.cell p)) (r.store.cell p) =
                (same (r.store.cell p), inr bare) in
              let either : (is_unmade (fn (r.store.cell p)).phase ≡ false)
                  ⊎ ((fn (r.store.cell p)).id ≡ "") =
                ground (arith, out (r.store.cell p), bare) in
              let own = phase-after id fn now r.store v.sound p held keeps either in
              let others = others-Alike id fn now r.store v.sound p held keeps either in
              record {
                sound = after-IsSound id fn now r.store v.sound p held keeps either;
                busy = λ k. ground (
                  arith,
                  eq_iff id k,
                  others k,
                  v.busy k,
                  v.once k,
                  removed_creates id k r.running h,
                );
                once = λ k. ground (arith, v.once k, removed_creates id k r.running h);
                made = λ k. ground (
                  arith,
                  eq_iff id k,
                  others k,
                  is_creating,
                  v.made k,
                  removed_creates id k r.running h,
                );
              }
        ]

  -- Only the store and the goroutines matter.
  pub seen-IsSingle :
      (r s : Reconciler m tb cb) → s.store ≡ r.store → s.running ≡ r.running → Single r → Single s
  seen-IsSingle r s e f v = record {
    sound = rw e v.sound;
    busy = λ k. rw (e, f) (v.busy k);
    once = λ k. rw f (v.once k);
    made = λ k. rw (e, f) (v.made k);
  }

  -- An operation that is no create ends.
  pub left-IsSingle :
      (op : Operation) (r : Reconciler m tb cb)
      → is_create op ≡ false
      → Single r
      → Single (record r { running = remove_operation op r.running })
  left-IsSingle op r other v = record {
    sound = v.sound;
    busy = λ k. ground (arith, v.busy k, removed_other op k r.running other);
    once = λ k. ground (arith, v.once k, removed_other op k r.running other);
    made = λ k. ground (arith, v.made k, removed_other op k r.running other);
  }
