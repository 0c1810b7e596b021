-- ===== src/Discovery/Safe.antt =====
-- vcd.go and reconciler.go: what a poll's listing does to vCD and, where it fails, to the store.
use fleeting_plugin_vcd.Base.{
  ◌∷◌, ℕ, ◌≡◌, refl, ◌∙◌, ◌⊎◌, inl, inr, String, some, none, suc, ◌++◌, arith, Option-cases, Option,
  List, [], subst,
}
use fleeting_plugin_vcd.Discovery.{
  get_instances_in_instance_group, get_vm_from_vapp_href, listing_of,
}
use fleeting_plugin_vcd.Reconciler.Poll.{
  Read, VApp, ListedVApp, read_listed_vapps, PollOps, listing_failed, poll_vcd,
}
use fleeting_plugin_vcd.Store.{Store}
use fleeting_plugin_vcd.Vcd.{
  gets_client, reads, times, ask_once, ask, attempt_once, attempt, note, note_times, see, pure,
  raise_some, continue, ◌>>=◌, Request, Env, World, Result,
}
use fleeting_plugin_vcd.Vcd.Plans.{
  changes, Begins-nil, Follows-nil, Since, Grows, returns, raises, Adds,
}
use fleeting_plugin_vcd.Vcd.Rules.{reads_only}
use mathlib.Core.List.{append-nil}

changes-reads :
    {A : Type 0} {v : World} {x : Result A × World} → Grows [] v x → changes x.1.log ≡ changes v.log
changes-reads {v = v} (returns {w = w} s f) =
    (subst (λ rs. Since v w rs) (Follows-nil f) s).made ∙ append-nil (changes v.log)
changes-reads {v = v} (raises {w = w} s b) =
    (subst (λ rs. Since v w rs) (Begins-nil b) s).made ∙ append-nil (changes v.log)

module _ (env : Env) where
  -- What a call logs, and whether all calls of a list are answered without an error.
  abbrev pub sent : Request → List Request → List Request
  sent gets_client log = log ++ gets_client ∷ []
  sent r log = log ++ times (suc (env.again r log)) r

  abbrev pub AreAnswered : List Request → List Request → Type 0
  AreAnswered [] log = Unit
  AreAnswered (r ∷ rs) log = (env.error r log ≡ none) × AreAnswered rs (sent r log)

  abbrev pub logged : List Request → List Request → List Request
  logged [] log = log
  logged (r ∷ rs) log = logged rs (sent r log)

-- The calls of a listing, the search last.
abbrev pub listing_calls : List Request
listing_calls =
    gets_client
    ∷ reads "GetOrgByName(poll)"
    ∷ reads "GetVDCByName(poll)"
    ∷ reads "SearchByFilter"
    ∷ []

module _ (env : Env) (hits : List Request → List ListedVApp) (read : String → Read VApp) where
  Adds-get_instances_in_instance_group : Adds [] (get_instances_in_instance_group env hits read)
  unfolding get_instances_in_instance_group
  Adds-get_instances_in_instance_group = search reads_only depth 20

  Adds-get_vm_from_vapp_href : Adds [] (get_vm_from_vapp_href env)
  unfolding get_vm_from_vapp_href
  Adds-get_vm_from_vapp_href = search reads_only depth 20

  -- The listing, after the calls are answered, and otherwise.
  abbrev IsListed : World → Result (List VApp × List String) → Type 0
  IsListed w r =
      (AreAnswered env listing_calls w.log
        × (listing_of r ≡ some (read_listed_vapps read (hits (logged env listing_calls w.log)))))
      ⊎ ((¬ AreAnswered env listing_calls w.log) × (listing_of r ≡ none))

  get_instances-IsListed :
      (w : World) → IsListed w (get_instances_in_instance_group env hits read w).0
  unfolding get_instances_in_instance_group ask_once ask attempt_once attempt note note_times see
      pure raise_some continue ◌>>=◌ listing_of
  get_instances-IsListed w =
      let l_1 = sent env gets_client w.log in
      let l_2 = sent env (reads "GetOrgByName(poll)") l_1 in
      let l_3 = sent env (reads "GetVDCByName(poll)") l_2 in
      elim (Option-cases (env.error gets_client w.log)) [
        | inr (e, bad) ↦ inr (λ (h, _). ground (arith, h, bad), rw bad refl)
        | inl client ↦ elim (Option-cases (env.error (reads "GetOrgByName(poll)") l_1)) [
          | inr (e, bad) ↦ inr (λ (_, (h, _)). ground (arith, h, bad), rw (client, bad) refl)
          | inl org ↦ elim (Option-cases (env.error (reads "GetVDCByName(poll)") l_2)) [
            | inr (e, bad) ↦
                inr (λ (_, (_, (h, _))). ground (arith, h, bad), rw (client, org, bad) refl)
            | inl vdc ↦ elim (Option-cases (env.error (reads "SearchByFilter") l_3)) [
              | inr (e, bad) ↦
                  inr (
                    λ (_, (_, (_, (h, _)))). ground (arith, h, bad),
                    rw (client, org, vdc, bad) refl,
                  )
              | inl found_some ↦
                  inl (
                    (client, (org, (vdc, (found_some, tt)))),
                    rw (client, org, vdc, found_some) refl,
                  )
            ]
          ]
        ]
      ]

  poll_unlisted :
      (ops : PollOps) (now : ℕ) (s : Store) (listing : Option (List VApp × List String))
      → listing ≡ none
      → poll_vcd ops now listing s ≡ (s, some listing_failed)
  unfolding poll_vcd
  poll_unlisted ops now s listing h = rw h refl

  -- Listing the group asks vCD for no change. Where all its calls are answered, the search among them,
  -- the listing has the reads of just the vApps that the search found; where one fails, the
  -- poll leaves the store as it was and reports that the listing failed.
  pub poll_after_listing :
      (ops : PollOps) (now : ℕ) (s : Store) (w : World)
      → let (r, w') = get_instances_in_instance_group env hits read w in
        (changes w'.log ≡ changes w.log)
        × ((AreAnswered env listing_calls w.log
              × (listing_of r
                  ≡ some (read_listed_vapps read (hits (logged env listing_calls w.log)))))
            ⊎ ((¬ AreAnswered env listing_calls w.log)
                × (poll_vcd ops now (listing_of r) s ≡ (s, some listing_failed))))
  poll_after_listing ops now s w = (
    changes-reads (Adds-get_instances_in_instance_group.at w),
    elim (get_instances-IsListed w) [
      | inl good ↦ inl good
      | inr (fails, unlisted) ↦ inr (fails, poll_unlisted ops now s _ unlisted)
    ],
  )
