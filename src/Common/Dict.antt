-- ===== src/Common/Dict.antt =====
-- An object used as a dictionary, in insertion order: `o[k]`, `o[k] = v`.
use Prim.Native.String.{String}
use mathlib.Core.Path.{◌≡◌, refl}
use mathlib.Core.Option.{Option, none, some}
use mathlib.Core.List.{List, [], ◌∷◌}
use native.Mathlib.Omega.{arith}
use shado_cloud.Common.Tests.{str_eq, eq_iff, if◌then◌else◌}

module _ {ℓ} {V : Type ℓ} where
  unfoldable pub lookup : String → List (String × V) → Option V
  lookup key ((name, value) ∷ more) = if str_eq name key then some value else lookup key more
  lookup key [] = none

  unfoldable pub insert : String → V → List (String × V) → List (String × V)
  insert key new [] = (key, new) ∷ []
  insert key new ((name, value) ∷ more) =
      if str_eq name key then (key, new) ∷ more else (name, value) ∷ insert key new more

  pub lookup-insert :
      (key other : String) (new : V) (entries : List (String × V))
      → lookup other (insert key new entries)
        ≡ (if str_eq key other then some new else lookup other entries)
  unfolding lookup insert
  lookup-insert key other new [] = refl
  lookup-insert key other new ((name, value) ∷ more) = ground (
    lookup-insert key other new more,
    eq_iff name key,
    eq_iff name other,
    eq_iff key other,
    arith,
  )
