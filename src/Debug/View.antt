-- ===== src/Debug/View.antt =====
-- debug.go, `instances`: the rows of the debug page, filtered and sorted. `sort.SliceStable` is of the
-- standard library: rows that compare equal keep the order of the store.
pub mod Sorted
pub mod Shown
use fleeting_plugin_vcd.Base.{
  ℕ, zero, suc, ltb, ◌==◌, if◌then◌else◌, String, str_eq, Bool, true, false, not, ◌&&◌, ◌||◌,
  Option, List, [], ◌∷◌,
}
use fleeting_plugin_vcd.Debug.{phase_order, instance_source, phase_since}
use fleeting_plugin_vcd.Instance.{Phase, deleted, phase_eq, phase_string, Instance}
use fleeting_plugin_vcd.Store.{Store, get_all}
use Prim.Native.String.{compare}
use text.Mathlib.Text.{is_lt}

-- `instanceView`
pub record InstanceView : Type 0 where
  pub instance_of_view : Instance
  pub source : String
  pub phase_since_of_view : Option ℕ

-- `rank`: the position of a phase in `phaseOrder`.
unfoldable pub rank_from : ℕ → List Phase → Phase → ℕ
rank_from n [] p = 0
rank_from n (q ∷ qs) p = let later = rank_from (suc n) qs p in if phase_eq q p then n else later

unfoldable pub rank : Phase → ℕ
unfolding rank_from
rank p = rank_from 0 phase_order p

-- `<` on texts.
abbrev pub text_lt : String → String → Bool
text_lt s t = is_lt (compare s t)

-- The function that `sort.SliceStable` takes.
unfoldable pub before : InstanceView → InstanceView → Bool
before v w =
    let i = v.instance_of_view in
    let j = w.instance_of_view in
    if not (rank i.phase == rank j.phase)
    then ltb (rank i.phase) (rank j.phase)
    else if not (str_eq i.name j.name)
    then text_lt i.name j.name
    else text_lt i.intent_id j.intent_id

unfoldable pub insert_view : InstanceView → List InstanceView → List InstanceView
insert_view v [] = v ∷ []
insert_view v (w ∷ ws) = let rest = insert_view v ws in if before w v then w ∷ rest else v ∷ w ∷ ws

unfoldable pub sort_stable : List InstanceView → List InstanceView
unfolding insert_view
sort_stable [] = []
sort_stable (v ∷ vs) = insert_view v (sort_stable vs)

-- The two tests of the loop.
abbrev pub is_shown : Bool → String → Instance → Bool
is_shown hide_deleted phase i =
    not (hide_deleted && phase_eq i.phase deleted)
    && not (not (str_eq phase "") && not (str_eq (phase_string i.phase) phase))

unfoldable pub view_of : Instance → InstanceView
view_of i = record {
  instance_of_view = i;
  source = instance_source i;
  phase_since_of_view = phase_since i;
}

unfoldable pub collect_views : Bool → String → List Instance → List InstanceView
unfolding view_of
collect_views hide_deleted phase [] = []
collect_views hide_deleted phase (i ∷ is) =
    let rest = collect_views hide_deleted phase is in
    if hide_deleted && phase_eq i.phase deleted
    then rest
    else if not (str_eq phase "") && not (str_eq (phase_string i.phase) phase)
    then rest
    else view_of i ∷ rest

-- `instances`
unfoldable pub instances : Bool → String → Store → List InstanceView
unfolding sort_stable collect_views
instances hide_deleted phase s = sort_stable (collect_views hide_deleted phase (get_all s))
