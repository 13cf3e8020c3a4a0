-- ===== src/Common/Values.antt =====
-- JavaScript values of unknown type, as they come from `JSON.parse` or `postMessage`.
use mathlib.Core.Option.{some, Option, none}
use mathlib.Core.List.{[], List, ◌∷◌}
use y5fgb.Common.Strings.{eq_text, Text}
use y5fgb.Common.Numbers.{Number}
use mathlib.Core.Bool.{Bool}
use y5fgb.Common.Tests.{if◌then◌else◌}

mutual
  pub data Json : Type 0 where
    null : Json
    boolean : Bool → Json
    number : Number → Json
    string : Text → Json
    array : Elements → Json
    object : Fields → Json

  pub data Elements : Type 0 where
    nil : Elements
    cons : Json → Elements → Elements

  pub data Fields : Type 0 where
    end : Fields
    field : Text → Json → Fields → Fields

abbrev pub elements : Elements → List Json
elements nil = []
elements (cons v vs) = v ∷ elements vs

unfoldable pub field_of : Text → Fields → Option Json
field_of k end = none
field_of k (field j v fs) = if eq_text j k then some v else field_of k fs

-- `value.name`: `none` is `undefined`, also where the value is no object.
unfoldable pub get_field : Text → Json → Option Json
unfolding field_of
get_field k (object fs) = field_of k fs
get_field k _ = none

-- `typeof value === "string" ? value : undefined`
unfoldable pub string_of : Option Json → Option Text
string_of (some (string s)) = some s
string_of (some _) = none
string_of none = none
