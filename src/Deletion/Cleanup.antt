-- ===== src/Deletion/Cleanup.antt =====
-- vcd.go, `cleanUpInstanceByName`, and what reconciler.go makes of its end: when the cleanup of a
-- failed create is over.
use fleeting_plugin_vcd.Base.{
  true, Option, ℕ, ◌+◌, ◌≤◌, ◌≡◌, refl, ◌⊎◌, inl, inr, leb, leb→le, String, Bool, none, some, arith,
  Option-cases, Bool-cases, lookup,
}
use fleeting_plugin_vcd.Backoff.{Backoff}
use fleeting_plugin_vcd.Deletion.{
  Answers, Target, Lookup, read_error, delete_looked_up, refresh_vapp, delete_instance,
  clean_up_instance_by_name,
}
use fleeting_plugin_vcd.Deletion.Outcomes.{IsAccepted, delete_instance-success}
use fleeting_plugin_vcd.Reconciler.{Reconciler}
use fleeting_plugin_vcd.Reconciler.Finish.{safe_call_max_elapsed_time, cleanup_done, end_cleanup}
use fleeting_plugin_vcd.Reconciler.Poll.{Read, found, gone, failed}
use fleeting_plugin_vcd.Semaphore.{Semaphore}

-- A read of the vApp found that it is gone or has no name, or its deletion was sent and accepted, and
-- its task succeeded.
abbrev pub IsDeleted : Answers → Type 0
IsDeleted a =
    ((v : Target) × (refresh_vapp a.refreshes ≡ some v) × (v.name ≡ ""))
    ⊎ IsAccepted a (delete_instance a).0

delete_instance-IsDeleted : (a : Answers) → (delete_instance a).1 ≡ none → IsDeleted a
delete_instance-IsDeleted a ok = elim (delete_instance-success a).1 [
  | inl bad ↦ absurd (bad ok)
  | inr (inl (v, seen, nameless, _)) ↦ inl (v, seen, nameless)
  | inr (inr done) ↦ inr done
]

found_or_not : (r : Read (Unit {0})) → (r ≡ found tt) ⊎ (r ≡ gone) ⊎ (r ≡ failed)
found_or_not (found tt) = inl refl
found_or_not gone = inr (inl refl)
found_or_not failed = inr (inr refl)

looked_up :
    (is_not_found : String → Bool) (a : String → Answers) (r : Read String)
    → (delete_looked_up is_not_found a r).1 ≡ found tt
    → (href : String) × (r ≡ found href) × ((delete_instance (a href)).1 ≡ none)
unfolding delete_looked_up read_error
looked_up is_not_found a (found href) h = elim (Option-cases (delete_instance (a href)).1) [
  | inl ok ↦ (href, refl, ok)
  | inr (e, bad) ↦ absurd (ground (arith, h, bad))
]
looked_up is_not_found a gone h = absurd (ground (arith, h))
looked_up is_not_found a failed h = absurd (ground (arith, h))

clean_up_deletes :
    (l : Lookup) (a : String → Answers)
    → (clean_up_instance_by_name l a).1 ≡ found tt
    → (href : String) × (l.vapp ≡ found href) × IsDeleted (a href)
unfolding clean_up_instance_by_name read_error
clean_up_deletes l a h = elim (Option-cases l.client) [
  | inr (e, bad) ↦ absurd (ground (arith, h, bad))
  | inl client ↦ elim (Option-cases l.org) [
    | inr (e, bad) ↦ absurd (ground (arith, h, client, bad))
    | inl org ↦ elim (Option-cases l.vdc) [
      | inr (e, bad) ↦ absurd (ground (arith, h, client, org, bad))
      | inl vdc ↦
          let (href, seen, ok) =
            looked_up l.is_not_found a l.vapp (ground (arith, h, client, org, vdc)) in
          (href, seen, delete_instance-IsDeleted (a href) ok)
    ]
  ]
]

-- An error that says that something was not found.
abbrev pub SaysMissing : (String → Bool) → Option String → Type 0
SaysMissing is_not_found error = (e : String) × (error ≡ some e) × (is_not_found e ≡ true)

read_error-SaysMissing :
    (is_not_found : String → Bool) (error : Option String)
    → read_error is_not_found error ≡ gone
    → SaysMissing is_not_found error
unfolding read_error
read_error-SaysMissing is_not_found none h = absurd (ground (arith, h))
read_error-SaysMissing is_not_found (some e) h = (e, refl, ground (arith, h))

-- The vApp was not found, or the error of another call says so.
abbrev pub IsMissing : Lookup → (String → Answers) → Type 0
IsMissing l a =
    (l.vapp ≡ gone)
    ⊎ SaysMissing l.is_not_found l.client
    ⊎ SaysMissing l.is_not_found l.org
    ⊎ SaysMissing l.is_not_found l.vdc
    ⊎ ((href : String) × (l.vapp ≡ found href)
        × SaysMissing l.is_not_found (delete_instance (a href)).1)

delete_looked_up_missing :
    (is_not_found : String → Bool) (a : String → Answers) (r : Read String)
    → (delete_looked_up is_not_found a r).1 ≡ gone
    → (r ≡ gone)
      ⊎ ((href : String) × (r ≡ found href) × SaysMissing is_not_found (delete_instance (a href)).1)
unfolding delete_looked_up
delete_looked_up_missing is_not_found a (found href) h =
    inr (href, refl, read_error-SaysMissing is_not_found (delete_instance (a href)).1 h)
delete_looked_up_missing is_not_found a gone h = inl refl
delete_looked_up_missing is_not_found a failed h = absurd (ground (arith, h))

clean_up_instance_by_name-IsMissing :
    (l : Lookup) (a : String → Answers) → (clean_up_instance_by_name l a).1 ≡ gone → IsMissing l a
unfolding clean_up_instance_by_name
clean_up_instance_by_name-IsMissing l a h = elim (Option-cases l.client) [
  | inr (e, bad) ↦
      inr (inl (read_error-SaysMissing l.is_not_found l.client (ground (arith, h, bad))))
  | inl client ↦ elim (Option-cases l.org) [
    | inr (e, bad) ↦
        inr
          (inr (inl (read_error-SaysMissing l.is_not_found l.org (ground (arith, h, client, bad)))))
    | inl org ↦ elim (Option-cases l.vdc) [
      | inr (e, bad) ↦ inr (
          inr (
            inr (
              inl (
                read_error-SaysMissing l.is_not_found l.vdc
                  (ground (arith, h, client, org, bad))))))
      | inl vdc ↦
          elim (delete_looked_up_missing l.is_not_found a l.vapp
            (ground (arith, h, client, org, vdc))) [
              | inl missing ↦ inl missing
              | inr later ↦ inr (inr (inr (inr later)))
            ]
    ]
  ]
]

module _ (m : Semaphore) (tb cb rb : Backoff) where
  -- When the cleanup of a failed create ends, its name stays with the time of the request, for the
  -- next cycle to try again and so that no poll takes the vApp for a leftover, unless the vApp of
  -- that name was found and deleted, or the vApp was not found or the error of another call says
  -- that something was not found, and five minutes have passed since the request.
  pub cleanup_kept :
      (l : Lookup) (a : String → Answers) (name : String) (requested_at now : ℕ)
      (r : Reconciler m tb cb)
      → lookup name r.failed_create_cleanups ≡ some requested_at
      → let result = (clean_up_instance_by_name l a).1 in
        let s = end_cleanup m tb cb rb name requested_at now result r in
        (lookup name s.failed_create_cleanups ≡ some requested_at)
        ⊎ ((href : String) × (l.vapp ≡ found href) × IsDeleted (a href))
        ⊎ (IsMissing l a × (requested_at + safe_call_max_elapsed_time ≤ now))
  unfolding end_cleanup cleanup_done
  cleanup_kept l a name requested_at now r kept =
      let result = (clean_up_instance_by_name l a).1 in
      elim (found_or_not result) [
        | inl ok ↦ inr (inl (clean_up_deletes l a ok))
        | inr (inr bad) ↦ inl (rw bad kept)
        | inr (inl missing) ↦
            elim (Bool-cases (leb (requested_at + safe_call_max_elapsed_time) now)) [
              | inl late ↦
                  inr (inr (clean_up_instance_by_name-IsMissing l a missing, leb→le _ _ late))
              | inr early ↦ inl (rw (missing, early) kept)
            ]
      ]
