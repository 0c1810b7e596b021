-- ===== src/Base/Table.antt =====
-- A Go map with string keys, as an association list: lookup, assignment and `delete`.
-- `values` is what a `range` over the map visits; the source leaves that order open, and so do
-- the theorems, which hold for every list.
use Prim.Native.String.{String}
use mathlib.Core.Path.{◌≡◌, refl}
use mathlib.Core.List.{List, [], ◌∷◌}
use mathlib.Core.Option.{Option, none, some}
use native.Mathlib.Omega.{arith}
use text.Mathlib.Text.{◌==◌ as str_eq}
use text.Mathlib.TextEquality.{eq_iff}
use fleeting_plugin_vcd.Base.Tests.{if◌then◌else◌}

module _ {ℓ} {V : Type ℓ} where
  unfoldable pub lookup : String → List (String × V) → Option V
  lookup k [] = none
  lookup k ((j, v) ∷ m) = if str_eq j k then some v else lookup k m

  unfoldable pub put : String → V → List (String × V) → List (String × V)
  put k v [] = (k, v) ∷ []
  put k v ((j, w) ∷ m) = if str_eq j k then (j, v) ∷ m else (j, w) ∷ put k v m

  unfoldable pub del : String → List (String × V) → List (String × V)
  del k [] = []
  del k ((j, w) ∷ m) = let rest = del k m in if str_eq j k then rest else (j, w) ∷ rest

  abbrev pub values : List (String × V) → List V
  values [] = []
  values ((_, v) ∷ m) = v ∷ values m

  -- No key stands twice.
  abbrev pub IsMap : List (String × V) → Type ℓ
  IsMap [] = Unit
  IsMap ((k, _) ∷ m) = (lookup k m ≡ none) × IsMap m

  pub lookup-put :
      (k j : String) (v : V) (m : List (String × V))
      → lookup j (put k v m) ≡ (if str_eq k j then some v else lookup j m)
  unfolding lookup put
  lookup-put k j v [] = refl
  lookup-put k j v ((i, w) ∷ m) =
      ground (arith, eq_iff k j, eq_iff i k, eq_iff i j, lookup-put k j v m)

  pub lookup-del :
      (k j : String) (m : List (String × V))
      → lookup j (del k m) ≡ (if str_eq k j then none else lookup j m)
  unfolding lookup del
  lookup-del k j [] = ground arith
  lookup-del k j ((i, w) ∷ m) = ground (arith, eq_iff k j, eq_iff i k, eq_iff i j, lookup-del k j m)

  pub put-IsMap : (k : String) (v : V) (m : List (String × V)) → IsMap m → IsMap (put k v m)
  unfolding lookup put
  put-IsMap k v [] h = (refl, tt)
  put-IsMap k v ((i, w) ∷ m) h =
      ground (arith, eq_iff k i, eq_iff i k, lookup-put k i v m, put-IsMap k v m h.1)

  pub del-IsMap : (k : String) (m : List (String × V)) → IsMap m → IsMap (del k m)
  unfolding lookup del
  del-IsMap k [] h = tt
  del-IsMap k ((i, w) ∷ m) h =
      ground (arith, eq_iff k i, eq_iff i k, lookup-del k i m, del-IsMap k m h.1)
