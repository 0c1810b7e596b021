-- ===== src/Reconciler/Shutdown/Targets.antt =====
-- reconciler.go, `Shutdown`: what there is to delete.
use fleeting_plugin_vcd.Base.{
  ℕ, ◌≡◌, refl, ◌≢◌, ◌⊎◌, inl, inr, if◌then◌else◌, String, str_eq, starts_with, Bool, true, false,
  not, ◌&&◌, ◌||◌, List, [], ◌∷◌, ◌++◌, arith,
}
use fleeting_plugin_vcd.Instance.{Instance, deleted, phase_eq}
use fleeting_plugin_vcd.Reconciler.Poll.{Read, found, gone, failed}
use fleeting_plugin_vcd.Reconciler.Shutdown.{
  Target, cleans_up, deletes_vapp, Answers, cleanup_errors,
}
use fleeting_plugin_vcd.Store.{Store, get_all}

-- The vApps of failed creates, and those of the instances that may exist and have a name of the group.
abbrev pub all_cleanups : List (String × ℕ) → List Target
all_cleanups [] = []
all_cleanups ((name, since) ∷ names) = cleans_up name ∷ all_cleanups names

abbrev pub is_left : String → Instance → Bool
is_left vapp_prefix i =
    not (str_eq i.id "") && (not (phase_eq i.phase deleted) && starts_with i.name vapp_prefix)

abbrev pub all_left : String → List Instance → List Target
all_left vapp_prefix [] = []
all_left vapp_prefix (i ∷ is) =
    let rest = all_left vapp_prefix is in
    if is_left vapp_prefix i then deletes_vapp i.id ∷ rest else rest

abbrev pub all_targets : String → Store → List (String × ℕ) → List Target
all_targets vapp_prefix s names = all_cleanups names ++ all_left vapp_prefix (get_all s)

abbrev pub IsCleaned : Read (Unit {0}) → Type 0
IsCleaned failed = ⊥
IsCleaned _ = Unit

-- Each failed create was cleaned up, or its vApp is not there.
abbrev pub AreCleaned : Answers → List (String × ℕ) → Type 0
AreCleaned a [] = Unit
AreCleaned a ((name, since) ∷ names) = IsCleaned (a.result (cleans_up name)) × AreCleaned a names

pub last_error : (errors : List String) (e : String) → (errors ++ e ∷ []) ≢ []
last_error [] e h = ground (arith, h)
last_error (x ∷ errors) e h = ground (arith, h)

pub append_eq_nil : (xs ys : List String) → xs ++ ys ≡ [] → xs ≡ []
append_eq_nil [] ys h = refl
append_eq_nil (x ∷ xs) ys h = absurd (ground (arith, h))

pub after_cleanup :
    {P : Type 0} (r : Read (Unit {0})) (name : String) (errors : List String)
    → (errors ≢ []) ⊎ P
    → ((cleanup_errors r name ++ errors) ≢ []) ⊎ (IsCleaned r × P)
after_cleanup (found _) name errors (inl bad) = inl bad
after_cleanup (found _) name errors (inr rest) = inr (tt, rest)
after_cleanup gone name errors (inl bad) = inl bad
after_cleanup gone name errors (inr rest) = inr (tt, rest)
after_cleanup failed name errors _ = inl (λ e. ground (arith, e))

-- The tests of the loop over the instances, in their order.
pub left_or_not :
    (missing gone_already named : Bool)
    → (((not missing && (not gone_already && named)) ≡ true)
        × ((missing || gone_already) ≡ false)
        × (not named ≡ false))
      ⊎ (((not missing && (not gone_already && named)) ≡ false)
          × (((missing || gone_already) ≡ true)
              ⊎ (((missing || gone_already) ≡ false) × (not named ≡ true))))
left_or_not true gone_already named = inr (refl, inl refl)
left_or_not false true named = inr (refl, inl refl)
left_or_not false false true = inl (refl, refl, refl)
left_or_not false false false = inr (refl, inr (refl, refl))
