-- ===== src/Debug/View/Shown.antt =====
-- debug.go, `instances`: which rows are shown, and in which order.
use fleeting_plugin_vcd.Debug.View.Sorted.{
  IsOrdered, sort_stable-IsOrdered, Among-sort_stable, length-sort_stable,
}
use fleeting_plugin_vcd.Base.{
  suc, ◌≡◌, refl, sym, subst, ap, ◌∙◌, ◌↔◌, ◌⊎◌, inl, inr, String, str_eq, Bool, true, false, not,
  ◌&&◌, List, [], ◌∷◌, length, Among, arith,
}
use fleeting_plugin_vcd.Debug.View.{InstanceView, is_shown, view_of, collect_views, instances}
use fleeting_plugin_vcd.Instance.{Instance, phase_eq, deleted, phase_string}
use fleeting_plugin_vcd.Store.{Store, get_all}
use fleeting_plugin_vcd.Store.Query.{tally}

two_tests :
    (p q : Bool)
    → (((not p && not q) ≡ true) × (p ≡ false) × (q ≡ false))
      ⊎ (((not p && not q) ≡ false) × ((p ≡ true) ⊎ ((p ≡ false) × (q ≡ true))))
two_tests true q = inr (refl, inl refl)
two_tests false true = inr (refl, inr (refl, refl))
two_tests false false = inl (refl, refl, refl)

module _ (hide_deleted : Bool) (phase : String) where
  -- The row of an instance that the two tests let through.
  abbrev pub IsRowOf : InstanceView → List Instance → Type 0
  IsRowOf v all =
      (i : Instance) × Among i all × (is_shown hide_deleted phase i ≡ true) × (v ≡ view_of i)

  collect_cases :
      (i : Instance)
      → ((is_shown hide_deleted phase i ≡ true)
          × ((hide_deleted && phase_eq i.phase deleted) ≡ false)
          × ((not (str_eq phase "") && not (str_eq (phase_string i.phase) phase)) ≡ false))
        ⊎ ((is_shown hide_deleted phase i ≡ false)
            × (((hide_deleted && phase_eq i.phase deleted) ≡ true)
                ⊎ (((hide_deleted && phase_eq i.phase deleted) ≡ false)
                    × ((not (str_eq phase "") && not (str_eq (phase_string i.phase) phase))
                        ≡ true))))
  collect_cases i =
      two_tests (hide_deleted && phase_eq i.phase deleted)
        (not (str_eq phase "") && not (str_eq (phase_string i.phase) phase))

  length-collect_views :
      (all : List Instance)
      → length (collect_views hide_deleted phase all) ≡ tally (is_shown hide_deleted phase) all
  unfolding collect_views tally
  length-collect_views [] = refl
  length-collect_views (i ∷ all) = elim (collect_cases i) [
    | inl (shown, kept, wanted) ↦
        rw (kept, wanted, collect_views, tally) (ap suc (length-collect_views all))
    | inr (hidden, inl gone_already) ↦
        rw (gone_already, collect_views, tally) (length-collect_views all)
    | inr (hidden, inr (kept, other)) ↦
        rw (kept, other, collect_views, tally) (length-collect_views all)
  ]

  is_hidden :
      (i j : Instance)
      → i ≡ j
      → is_shown hide_deleted phase i ≡ false
      → is_shown hide_deleted phase j ≡ true
      → ⊥
  is_hidden i j e hidden shown =
      let both : is_shown hide_deleted phase i ≡ true =
        subst (λ k. is_shown hide_deleted phase k ≡ true) (sym e) shown in
      ground (arith, hidden, both)

  collect_views-rows :
      (v : InstanceView) (all : List Instance)
      → Among v (collect_views hide_deleted phase all) ↔ IsRowOf v all
  unfolding collect_views
  collect_views-rows v [] = (λ h. absurd h, λ h. absurd h.1)
  collect_views-rows v (i ∷ all) =
      let (there, back) = collect_views-rows v all in
      elim (collect_cases i) [
        | inl (shown, kept, wanted) ↦
            rw (kept, wanted, collect_views)
              (
                λ h. elim h [
                  | inl e ↦ (i, inl refl, shown, sym e)
                  | inr m ↦ let (j, among, ok, e) = there m in (j, inr among, ok, e)
                ],
                λ h. elim h.1 [
                  | inl here ↦ inl (ap view_of here ∙ sym h.3)
                  | inr later ↦ inr (back (h.0, later, h.2, h.3))
                ],
              )
        | inr (hidden, skipped) ↦
            let unseen : collect_views hide_deleted phase (i ∷ all)
                ≡ collect_views hide_deleted phase all =
              elim skipped [
                | inl gone_already ↦ rw (gone_already, collect_views) refl
                | inr (kept, other) ↦ rw (kept, other, collect_views) refl
              ] in
            rw unseen (
              λ h. let (j, among, ok, e) = there h in (j, inr among, ok, e),
              λ h. elim h.1 [
                | inl here ↦ absurd (is_hidden i h.0 here hidden h.2)
                | inr later ↦ back (h.0, later, h.2, h.3)
              ],
            )
      ]

  -- The debug page's list has a row for each instance of the store that the filters let through,
  -- and as many rows as there are such instances; no row stands directly after one that it comes
  -- before, by phase, then name, then intent ID.
  pub instances-exact :
      (s : Store)
      → IsOrdered (instances hide_deleted phase s)
        × ((v : InstanceView) → Among v (instances hide_deleted phase s) ↔ IsRowOf v (get_all s))
        × (length (instances hide_deleted phase s)
            ≡ tally (is_shown hide_deleted phase) (get_all s))
  unfolding instances
  instances-exact s =
      let rows = collect_views hide_deleted phase (get_all s) in
      (
        sort_stable-IsOrdered rows,
        λ v.
            let (there, back) = Among-sort_stable v rows in
            let (row, unrow) = collect_views-rows v (get_all s) in
            (λ h. row (there h), λ h. back (unrow h)),
        length-sort_stable rows ∙ length-collect_views (get_all s),
      )
