-- ===== src/Base/Json.antt =====
-- What `JSON.parse` returns, and the guards that the services read it through. A number is its
-- value where it is a natural number below 2^53, and its text otherwise. An object's keys come in
-- `Object.entries` order, each once.
use sproutboat.Base.Codes.{Text, text_eq_inst}
use sproutboat.Base.Dict
use sproutboat.Base.Dict.{Dict}
use Prim.Native.Nat.{ℕ}
use mathlib.Core.Bool.{Bool}
use mathlib.Core.Option.{Option, none, some}
use mathlib.Core.List.{List, [], ◌∷◌}

mutual
  pub data Json : Type 0 where
    null : Json
    boolean : Bool → Json
    natural : ℕ → Json
    number : Text → Json
    string : Text → Json
    array : Items → Json
    object : Fields → Json

  pub data Items : Type 0 where
    no_items : Items
    item : Json → Items → Items

  pub data Fields : Type 0 where
    no_fields : Fields
    field : Text → Json → Fields → Fields

unfoldable pub items : Items → List Json
items no_items = []
items (item value rest) = value ∷ items rest

unfoldable pub fields : Fields → Dict Text Json
fields no_fields = []
fields (field key value rest) = (key, value) ∷ fields rest

-- `isObj`, with the entries.
unfoldable pub as_object : Option Json → Option (Dict Text Json)
unfolding fields
as_object (some (object fs)) = some (fields fs)
as_object _ = none

unfoldable pub as_array : Option Json → Option (List Json)
unfolding items
as_array (some (array xs)) = some (items xs)
as_array _ = none

unfoldable pub as_string : Option Json → Option Text
as_string (some (string s)) = some s
as_string _ = none

-- `value.key` of what may be an object.
unfoldable pub at_key : Text → Option Json → Option Json
unfolding as_object
at_key key value = elim (as_object value) [ none ↦ none | some fs ↦ Dict.get key fs ]
