-- ===== src/Common/Json.antt =====
-- A value of a decoded JSON document. `N` is the type of its numbers with a fraction or exponent,
-- which `json.loads` gives as floats.
use openlaps.Common.Int.{ℤ}
use openlaps.Common.Text.{Text}
use openlaps.Common.Tests.{◌==◌, if◌then◌else◌, string_eq}
use Prim.Native.String.{String}
use mathlib.Core.Bool.{Bool}
use mathlib.Core.Option.{Option, none, some}

mutual
  pub data Json (N : Type 0) : Type 0 where
    null : Json N
    bool : Bool → Json N
    int : ℤ → Json N
    float : N → Json N
    str : Text → Json N
    arr : Items N → Json N
    obj : Members N → Json N

  pub data Items (N : Type 0) : Type 0 where
    [] : Items N
    ◌∷◌ : Json N → Items N → Items N

  pub data Members (N : Type 0) : Type 0 where
    end : Members N
    member : String → Json N → Members N → Members N

-- `d.get(key)`: the first member of that name, the decoder having kept one of each.
unfoldable pub get : {N : Type 0} → Members N → String → Option (Json N)
get end key = none
get (member k v rest) key = if k == key then some v else get rest key
