-- ===== src/Prelude/Dict.antt =====
-- A map with text keys, as an association list with one entry for a key.
use mathlib.Core.Bool.{not}
use mathlib.Core.Path.{◌≡◌}
use mathlib.Core.Option.{Option, none, some}
use mathlib.Core.List.{List, [], ◌∷◌}
use Prim.Native.String.{String}
use native.Mathlib.Omega.{arith}
use text.Mathlib.Text.{◌==◌ as str_eq}
use text.Mathlib.TextEquality.{eq_iff}
use edge_route_gw.Prelude.Tests.{if◌then◌else◌}
use edge_route_gw.Prelude.Lists.{keep}

module _ {ℓ} {V : Type ℓ} where
  unfoldable pub lookup : String → List (String × V) → Option V
  lookup key [] = none
  lookup key (e ∷ rest) = if str_eq e.0 key then some e.1 else lookup key rest

  unfoldable pub delete : String → List (String × V) → List (String × V)
  delete key table = keep (λ e. not (str_eq e.0 key)) table

  -- The first entry is the one that counts, so an older one can go.
  unfoldable pub insert : String → V → List (String × V) → List (String × V)
  unfolding delete
  insert key v table = (key, v) ∷ delete key table

  pub lookup-delete :
      (key other : String) (table : List (String × V))
      → lookup other (delete key table) ≡ (if str_eq key other then none else lookup other table)
  unfolding lookup delete
  lookup-delete key other [] = ground arith
  lookup-delete key other (e ∷ rest) =
      ground
        (arith, eq_iff e.0 key, eq_iff e.0 other, eq_iff key other, lookup-delete key other rest)

  pub lookup-insert :
      (key other : String) (v : V) (table : List (String × V))
      → lookup other (insert key v table)
        ≡ (if str_eq key other then some v else lookup other table)
  unfolding lookup insert
  lookup-insert key other v table = ground (arith, lookup-delete key other table)
