-- ===== src/Reconciler/Poll/Steps.antt =====
-- reconciler.go, `pollVCD`: what the loop over the listed vApps does to the instances already
-- tracked.
use fleeting_plugin_vcd.Base.{
  ℕ, ◌≤◌, ◌≡◌, refl, ◌≢◌, String, none, some, lookup, arith, eq_iff, lookup-put,
}
use native.Mathlib.Nat.{le_refl}
use fleeting_plugin_vcd.Instance.{Instance}
use fleeting_plugin_vcd.Store.{Store}
use fleeting_plugin_vcd.Store.Ops.{Observation, observe, add_leftover, update_from_vcd}
use fleeting_plugin_vcd.Store.Index.{IsWellFormed}
use fleeting_plugin_vcd.Store.Index.Add.{add_leftover-IsWellFormed}
use fleeting_plugin_vcd.Store.Index.Keep.{update_from_vcd-IsWellFormed}
use fleeting_plugin_vcd.Reconciler.Poll.{
  VmRef, VApp, PollOps, Progress, poll_vm_of, poll_tracked, poll_vapp,
}

-- What one round may do with the vApp at the HREF `h`.
pub data PollStep (h : String) (s : Store) : Store → Type 0 where
  stays : PollStep h s s
  observes : (o : Observation) (now : ℕ) → PollStep h s (update_from_vcd h o now s).0
  queues : (name : String) (now : ℕ) → PollStep h s (add_leftover h name now s).0

poll_vm_of-PollStep :
    (ops : PollOps) (now : ℕ) (v : VApp) (vm : VmRef) (s : Progress)
    → PollStep v.href s.store (poll_vm_of ops now v vm s).store
unfolding poll_vm_of
poll_vm_of-PollStep ops now v vm s = grind (arith, stays, observes)

pub poll_vapp-PollStep :
    (ops : PollOps) (now : ℕ) (v : VApp) (s : Progress)
    → PollStep v.href s.store (poll_vapp ops now v s).store
unfolding poll_vapp poll_tracked
poll_vapp-PollStep ops now v s = grind (arith, stays, observes, queues, poll_vm_of-PollStep)

-- An HREF that is not tracked is no intent ID either.
abbrev pub IsFresh : String → Store → Type 0
IsFresh h s = lookup h s.by_vapp_href ≡ none → lookup h s.instances ≡ none

-- What a poll keeps of an instance while it goes through the listing.
abbrev pub Kept : Instance → Instance → Type 0
Kept j i =
    (j.phase ≡ i.phase)
    × (j.id ≡ i.id)
    × (j.leftover ≡ i.leftover)
    × (j.missed_polls ≤ i.missed_polls)

pub PollStep-IsWellFormed :
    {h : String} {s t : Store}
    → PollStep h s t
    → h ≢ ""
    → IsFresh h s
    → IsWellFormed s
    → IsWellFormed t
PollStep-IsWellFormed stays ne f w = w
PollStep-IsWellFormed {h} {s} (observes o now) ne f w = update_from_vcd-IsWellFormed h o now s w
PollStep-IsWellFormed {h} {s} (queues name now) ne f w =
    add_leftover-IsWellFormed h name now s w ne f

pub PollStep-Kept :
    {h : String} {s t : Store} (k : String) (p : ℕ)
    → PollStep h s t
    → IsFresh h s
    → IsWellFormed s
    → lookup k s.instances ≡ some p
    → (lookup k t.instances ≡ some p) × Kept (t.cell p) (s.cell p)
unfolding update_from_vcd observe add_leftover
PollStep-Kept k p stays f w e = (e, (refl, refl, refl, le_refl _))
PollStep-Kept {h} {s} k p (observes o now) f w e = ground arith
PollStep-Kept {h} {s} k p (queues name now) f w e =
    ground (arith, eq_iff h k, lookup-put h k s.next s.instances, w.allocated k p)

pub PollStep-IsFresh :
    {h : String} {s t : Store} (j : String) → PollStep h s t → IsFresh j s → IsFresh j t
unfolding update_from_vcd add_leftover
PollStep-IsFresh j stays f = f
PollStep-IsFresh {h} {s} j (observes o now) f = ground arith
PollStep-IsFresh {h} {s} j (queues name now) f =
    ground
      (arith, eq_iff h j, lookup-put h j s.next s.instances, lookup-put h j s.next s.by_vapp_href)
