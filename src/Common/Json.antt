-- ===== src/Common/Json.antt =====
-- JSON values, as `JSON.parse` gives them. Numbers are the non-negative integers that the program
-- tests for; a negative or fractional one is `other_number`, by its text.
pub mod Keys
use Prim.Native.Nat.{ℕ}
use Prim.Native.String.{String}
use mathlib.Core.Bool.{Bool}
use mathlib.Core.Option.{Option, none, some}
use dg_cli.Common.Tests.{if◌then◌else◌, either}
use dg_cli.Common.Equality.{◌==◌, string_Eq}

mutual
  pub data Json : Type 0 where
    null : Json
    boolean : Bool → Json
    number : ℕ → Json
    other_number : String → Json
    text : String → Json
    array : Items → Json
    object : Fields → Json

  pub data Items : Type 0 where
    nil : Items
    item : Json → Items → Items

  pub data Fields : Type 0 where
    end : Fields
    field : String → Json → Fields → Fields

-- fields[key]; the last of two equal keys counts
abbrev pub lookup : String → Fields → Option Json
lookup key end = none
lookup key (field k v fs) = either (lookup key fs) (if k == key then some v else none)

-- fields[key] = value, where the key is there
unfoldable pub replace_field : Fields → String → Json → Fields
replace_field end key value = end
replace_field (field k v fields) key value =
    let rest = replace_field fields key value in
    if k == key then field k value rest else field k v rest

-- { ...fields, key: value }: a key that is there keeps its place.
unfoldable pub put_field : Fields → String → Json → Fields
unfolding replace_field
put_field end key value = field key value end
put_field (field k v fields) key value =
    let rest = put_field fields key value in
    if k == key then field k value (replace_field fields key value) else field k v rest
