-- ===== src/Prelude/Dict.antt =====
-- A Go map from strings as a list of its entries.
use mathlib.Core.Path.{◌≡◌}
use mathlib.Core.Bool.{false}
use mathlib.Core.List.{List, [], ◌∷◌}
use mathlib.Core.Option.{Option, none, some}
use native.Mathlib.Omega.{arith}
use anime_portable.Prelude.Tests.{if◌then◌else◌}
use anime_portable.Prelude.Text.{Str, str_eq, str_eq_iff, str_eq_refl}

module _ {V : Type 0} where
  -- `m[key]`
  unfoldable pub get_key : List (Str × V) → Str → Option V
  get_key [] key = none
  get_key ((k, value) ∷ rest) key =
      let later = get_key rest key in if str_eq k key then some value else later

  -- `m[key] = value`
  unfoldable pub set_key : List (Str × V) → Str → V → List (Str × V)
  set_key [] key value = (key, value) ∷ []
  set_key ((k, old) ∷ rest) key value =
      let later = set_key rest key value in
      if str_eq k key then (k, value) ∷ rest else (k, old) ∷ later

  pub get_key-set_key_same :
      (m : List (Str × V)) (key : Str) (value : V) → get_key (set_key m key value) key ≡ some value
  unfolding get_key set_key
  get_key-set_key_same [] key value = ground (arith, str_eq_refl key)
  get_key-set_key_same ((k, old) ∷ rest) key value =
      ground (arith, get_key-set_key_same rest key value)

  pub get_key-set_key_other :
      (m : List (Str × V)) (key other : Str) (value : V)
      → str_eq key other ≡ false
      → get_key (set_key m key value) other ≡ get_key m other
  unfolding get_key set_key
  get_key-set_key_other [] key other value h = ground arith
  get_key-set_key_other ((k, old) ∷ rest) key other value h =
      ground
        (arith, get_key-set_key_other rest key other value h, str_eq_iff k key, str_eq_iff key k)
