-- ===== src/Debug/View/Sorted.antt =====
-- debug.go, `instances`: what sorting its rows does.
use fleeting_plugin_vcd.Base.{
  ℕ, suc, ◌≡◌, refl, sym, ap, ◌∙◌, ◌↔◌, ◌⊎◌, inl, inr, String, eq_iff, true, false, List, [], ◌∷◌,
  length, Among, arith, Bool-cases,
}
use fleeting_plugin_vcd.Debug.View.{InstanceView, text_lt, before, insert_view, sort_stable}
use Prim.Native.Char.{code}
use Prim.Native.Nat.{Ordering, compare as compare_ℕ}
use Prim.Native.String.compare
use Prim.Native.String.{compare, then as next}
use text.Mathlib.Text.{is_lt}

next_asym :
    (m n : ℕ) (o p : Ordering)
    → is_lt (next (compare_ℕ m n) o) ≡ true
    → (is_lt o ≡ true → is_lt p ≡ false)
    → is_lt (next (compare_ℕ n m) p) ≡ false
next_asym m n o p h more = ground (arith, h, more)

text_lt_asym : (s t : String) → text_lt s t ≡ true → text_lt t s ≡ false
text_lt_asym String.[] String.[] h = refl
text_lt_asym String.[] (String.◌∷◌ d t) h = ap is_lt (compare.cons-nil d t)
text_lt_asym (String.◌∷◌ c s) String.[] h =
    absurd (ground (arith, sym (ap is_lt (compare.cons-nil c s)) ∙ h))
text_lt_asym (String.◌∷◌ c s) (String.◌∷◌ d t) h =
    ap is_lt (compare.cons-cons d c t s)
    ∙ next_asym (code c) (code d) (compare s t) (compare t s)
        (sym (ap is_lt (compare.cons-cons c d s t)) ∙ h) (text_lt_asym s t)

before_asym : (v w : InstanceView) → before v w ≡ true → before w v ≡ false
unfolding before
before_asym v w h =
    let i = v.instance_of_view in
    let j = w.instance_of_view in
    ground (
      arith,
      h,
      eq_iff i.name j.name,
      eq_iff j.name i.name,
      text_lt_asym i.name j.name,
      text_lt_asym i.intent_id j.intent_id,
    )

-- No row stands directly after one that it comes before.
abbrev pub IsOrdered : List InstanceView → Type 0
IsOrdered [] = Unit
IsOrdered (v ∷ []) = Unit
IsOrdered (v ∷ w ∷ vs) = (before w v ≡ false) × IsOrdered (w ∷ vs)

insert_view-IsOrdered :
    (v : InstanceView) (vs : List InstanceView) → IsOrdered vs → IsOrdered (insert_view v vs)
unfolding insert_view
insert_view-IsOrdered v [] h = tt
insert_view-IsOrdered v (w ∷ []) h = elim (Bool-cases (before w v)) [
  | inl first ↦ rw (first, insert_view) (before_asym w v first, tt)
  | inr after ↦ rw (after, insert_view) (after, tt)
]
insert_view-IsOrdered v (w ∷ x ∷ vs) h = elim (Bool-cases (before w v)) [
  | inr after ↦ rw (after, insert_view) (after, h)
  | inl first ↦ elim (Bool-cases (before x v)) [
    | inl second ↦
        let rest = insert_view-IsOrdered v (x ∷ vs) h.1 in
        rw (first, second, insert_view) (h.0, (rw (second, insert_view) at rest))
    | inr last ↦ rw (first, last, insert_view) (before_asym w v first, (last, h.1))
  ]
]

pub sort_stable-IsOrdered : (vs : List InstanceView) → IsOrdered (sort_stable vs)
unfolding sort_stable
sort_stable-IsOrdered [] = tt
sort_stable-IsOrdered (v ∷ vs) = insert_view-IsOrdered v (sort_stable vs) (sort_stable-IsOrdered vs)

Among-insert_view :
    (x v : InstanceView) (vs : List InstanceView)
    → Among x (insert_view v vs) ↔ ((v ≡ x) ⊎ Among x vs)
unfolding insert_view
Among-insert_view x v [] = (λ h. h, λ h. h)
Among-insert_view x v (w ∷ vs) =
    let (there, back) = Among-insert_view x v vs in
    elim (Bool-cases (before w v)) [
      | inr after ↦ rw (after, insert_view) (λ h. h, λ h. h)
      | inl first ↦
          rw (first, insert_view)
            (
              λ h. elim h [
                | inl here ↦ inr (inl here)
                | inr later ↦ elim (there later) [ inl e ↦ inl e | inr m ↦ inr (inr m) ]
              ],
              λ h. elim h [
                | inl e ↦ inr (back (inl e))
                | inr m ↦ elim m [ inl here ↦ inl here | inr later ↦ inr (back (inr later)) ]
              ],
            )
    ]

pub Among-sort_stable :
    (x : InstanceView) (vs : List InstanceView) → Among x (sort_stable vs) ↔ Among x vs
unfolding sort_stable
Among-sort_stable x [] = (λ h. h, λ h. h)
Among-sort_stable x (v ∷ vs) =
    let (there, back) = Among-insert_view x v (sort_stable vs) in
    let (in_there, in_back) = Among-sort_stable x vs in
    (
      λ h. elim (there h) [ inl e ↦ inl e | inr m ↦ inr (in_there m) ],
      λ h. elim h [ inl e ↦ back (inl e) | inr m ↦ back (inr (in_back m)) ],
    )

length-insert_view :
    (v : InstanceView) (vs : List InstanceView) → length (insert_view v vs) ≡ suc (length vs)
unfolding insert_view
length-insert_view v [] = refl
length-insert_view v (w ∷ vs) = ground (arith, length-insert_view v vs)

pub length-sort_stable : (vs : List InstanceView) → length (sort_stable vs) ≡ length vs
unfolding sort_stable
length-sort_stable [] = refl
length-sort_stable (v ∷ vs) =
    omega (arith, length-insert_view v (sort_stable vs), length-sort_stable vs)
