-- ===== src/Base/Dict.antt =====
-- A Go map with string keys, as an association list: a read of a missing key is `none`, a write
-- replaces the value in place or adds an entry, and a deletion of a missing key changes nothing.
use Prim.Native.String.{String}
use mathlib.Core.Path.{◌≡◌, refl}
use mathlib.Core.Option.{Option, none, some}
use mathlib.Core.List.{List, [], ◌∷◌}
use native.Mathlib.Omega.{arith}
use text.Mathlib.TextEquality.{eq_iff}
use verustcode.Base.Tests.{str_eq, if◌then◌else◌}

module _ {ℓ} {V : Type ℓ} where
  unfoldable pub lookup : String → List (String × V) → Option V
  lookup key [] = none
  lookup key ((name, value) ∷ entries) = if str_eq name key then some value else lookup key entries

  unfoldable pub delete : String → List (String × V) → List (String × V)
  delete key [] = []
  delete key ((name, value) ∷ entries) =
      let kept = delete key entries in if str_eq name key then kept else (name, value) ∷ kept

  unfoldable pub insert : String → V → List (String × V) → List (String × V)
  insert key new [] = (key, new) ∷ []
  insert key new ((name, value) ∷ entries) =
      let later = insert key new entries in
      if str_eq name key then (key, new) ∷ entries else (name, value) ∷ later

  pub lookup-delete :
      (key asked : String) (entries : List (String × V))
      → lookup asked (delete key entries)
        ≡ (if str_eq key asked then none else lookup asked entries)
  unfolding lookup delete
  lookup-delete key asked [] = ground arith
  lookup-delete key asked ((name, value) ∷ entries) =
      ground (
        arith,
        lookup-delete key asked entries,
        eq_iff name asked,
        eq_iff name key,
        eq_iff key asked,
      )

  pub lookup-insert :
      (key asked : String) (new : V) (entries : List (String × V))
      → lookup asked (insert key new entries)
        ≡ (if str_eq key asked then some new else lookup asked entries)
  unfolding lookup insert
  lookup-insert key asked new [] = refl
  lookup-insert key asked new ((name, value) ∷ entries) = ground (
    arith,
    lookup-insert key asked new entries,
    eq_iff name asked,
    eq_iff name key,
    eq_iff key asked,
  )
