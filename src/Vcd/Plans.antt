-- ===== src/Vcd/Plans.antt =====
-- Which requests an action makes that change vCD: a plan lists them in order, and an action that
-- fails has made a part of its plan, from the front.
use fleeting_plugin_vcd.Base.{
  ◌≡◌, refl, ap, ◌∙◌, if◌then◌else◌, String, Bool, true, false, Option, List, [], ◌∷◌, ◌++◌,
  Bool-cases, Among, inl, inr,
}
use fleeting_plugin_vcd.Vcd.{
  Script, Request, gets_client, reads, waits_task, sleeps, dials, adds_vm, customizes, World,
  Result, ok, err, Action,
}
use mathlib.Core.List.{append_assoc}

abbrev pub is_change : Request → Bool
is_change gets_client = false
is_change (reads name) = false
is_change waits_task = false
is_change (sleeps pause) = false
is_change (dials address port user) = false
is_change _ = true

-- The requests that change vCD, in order.
abbrev pub changes : List Request → List Request
changes [] = []
changes (r ∷ rs) = if is_change r then r ∷ changes rs else changes rs

pub changes-append : (rs ss : List Request) → changes (rs ++ ss) ≡ changes rs ++ changes ss
changes-append [] ss = refl
changes-append (r ∷ rs) ss = elim (Bool-cases (is_change r)) [
  | inl yes_change ↦ rw yes_change (ap (λ l. r ∷ l) (changes-append rs ss))
  | inr only_read ↦ rw only_read (changes-append rs ss)
]

-- A step of a plan: a request that is sent once, one that may be sent several times in a row, and one
-- that may in addition be left out. A VM is added once, with some compute policy, and its
-- customization, which may be sent several times, has a script that depends on its operating
-- system.
pub data Step : Type 0 where
  once : Request → Step
  repeated : Request → Step
  maybe : Request → Step
  a_vm : (name mode network : String) → Step
  a_customization : (password : Option String) → List (Option Script) → Step

abbrev pub is_repeated : Step → Bool
is_repeated (once r) = false
is_repeated (a_vm name mode network) = false
is_repeated _ = true

abbrev pub is_optional : Step → Bool
is_optional (maybe r) = true
is_optional _ = false

abbrev pub Fits : Step → Request → Type 0
Fits (once r) x = x ≡ r
Fits (repeated r) x = x ≡ r
Fits (maybe r) x = x ≡ r
Fits (a_vm name mode network) x = (policy : Option String) × (x ≡ adds_vm name mode network policy)
Fits (a_customization password scripts) x =
    (script : Option Script) × (x
      ≡ customizes (record { admin_password = password; script = script }))
    × Among script scripts

-- All steps of the plan, but for optional ones; a request that is repeated stands in a row.
pub data Follows : List Step → List Request → Type 0 where
  done : Follows [] []
  does :
      {s : Step} {r : Request} {ss : List Step} {rs : List Request}
      → Fits s r
      → Follows ss rs
      → Follows (s ∷ ss) (r ∷ rs)
  again :
      {s : Step} {r : Request} {ss : List Step} {rs : List Request}
      → is_repeated s ≡ true
      → Fits s r
      → Follows (s ∷ ss) (r ∷ rs)
      → Follows (s ∷ ss) (r ∷ r ∷ rs)
  skips :
      {s : Step} {ss : List Step} {rs : List Request}
      → is_optional s ≡ true
      → Follows ss rs
      → Follows (s ∷ ss) rs

-- The plan up to some point.
pub data Begins : List Step → List Request → Type 0 where
  stops : {ss : List Step} → Begins ss []
  begins :
      {s : Step} {r : Request} {ss : List Step} {rs : List Request}
      → Fits s r
      → Begins ss rs
      → Begins (s ∷ ss) (r ∷ rs)
  begins_again :
      {s : Step} {r : Request} {ss : List Step} {rs : List Request}
      → is_repeated s ≡ true
      → Fits s r
      → Begins (s ∷ ss) (r ∷ rs)
      → Begins (s ∷ ss) (r ∷ r ∷ rs)
  passes :
      {s : Step} {ss : List Step} {rs : List Request}
      → is_optional s ≡ true
      → Begins ss rs
      → Begins (s ∷ ss) rs

pub Follows-append :
    {p q : List Step} {rs ss : List Request}
    → Follows p rs
    → Follows q ss
    → Follows (p ++ q) (rs ++ ss)
Follows-append done g = g
Follows-append (does fit f) g = does fit (Follows-append f g)
Follows-append (again h fit f) g = again h fit (Follows-append f g)
Follows-append (skips o f) g = skips o (Follows-append f g)

pub Follows-Begins :
    {p q : List Step} {rs ss : List Request}
    → Follows p rs
    → Begins q ss
    → Begins (p ++ q) (rs ++ ss)
Follows-Begins done g = g
Follows-Begins (does fit f) g = begins fit (Follows-Begins f g)
Follows-Begins (again h fit f) g = begins_again h fit (Follows-Begins f g)
Follows-Begins (skips o f) g = passes o (Follows-Begins f g)

pub Begins-append :
    {p : List Step} (q : List Step) {rs : List Request} → Begins p rs → Begins (p ++ q) rs
Begins-append q stops = stops
Begins-append q (begins fit b) = begins fit (Begins-append q b)
Begins-append q (begins_again h fit b) = begins_again h fit (Begins-append q b)
Begins-append q (passes o b) = passes o (Begins-append q b)

pub Begins-nil : {rs : List Request} → Begins [] rs → rs ≡ []
Begins-nil stops = refl

pub Follows-nil : {rs : List Request} → Follows [] rs → rs ≡ []
Follows-nil done = refl

-- The changes made since `v`, the maps of names being left alone.
pub record Since (v w : World) (rs : List Request) : Type 0 where
  pub made : changes w.log ≡ changes v.log ++ rs
  pub inflight : w.inflight_creates ≡ v.inflight_creates
  pub cleanups : w.failed_create_cleanups ≡ v.failed_create_cleanups

pub Since-trans :
    {u v w : World} {rs ss : List Request} → Since u v rs → Since v w ss → Since u w (rs ++ ss)
Since-trans {u} {v} {w} {rs} {ss} a b = record {
  made = b.made ∙ ap (λ l. l ++ ss) a.made ∙ append_assoc (changes u.log) rs ss;
  inflight = b.inflight ∙ a.inflight;
  cleanups = b.cleanups ∙ a.cleanups;
}

pub data Grows {A : Type 0} (plan : List Step) (v : World) : Result A × World → Type 0 where
  returns :
      {a : A} {w : World} {rs : List Request}
      → Since v w rs
      → Follows plan rs
      → Grows plan v (ok a, w)
  raises :
      {e : String} {w : World} {rs : List Request}
      → Since v w rs
      → Begins plan rs
      → Grows plan v (err e, w)

-- Whether it returns or raises, the action keeps to the plan.
pub record Adds {A : Type 0} (plan : List Step) (m : Action A) : Type 0 where
  pub at : (w : World) → Grows plan w (m w)
