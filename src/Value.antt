-- ===== src/Value.antt =====
-- JavaScript values of type `unknown`: request and response bodies, metadata, error details.
-- An object is its list of own properties. Amounts and durations are natural numbers, so an
-- amount with a fraction is not modelled; what the adapters compute from an amount (its cents, its text with two
-- decimals) is written out there for whole amounts.
use gateway_orchestrator.Prelude.{ℕ, Bool, String, Option, none, some, ◌==◌, if◌then◌else◌}

mutual
  pub data Value : Type 0 where
    undefined null : Value
    bool : Bool → Value
    num : ℕ → Value
    str : String → Value
    arr : Items → Value
    obj : Fields → Value

  pub data Items : Type 0 where
    no_items : Items
    item : Value → Items → Items

  pub data Fields : Type 0 where
    end : Fields
    field : String → Value → Fields → Fields

-- `{ ...a, ...b }` for objects without a property in common.
abbrev pub spread : Fields → Fields → Fields
spread end more = more
spread (field k v rest) more = field k v (spread rest more)

-- `object[key] = value`
unfoldable pub set_property : Fields → String → Value → Fields
set_property end key value = field key value end
set_property (field k v rest) key value =
    if k == key then field k value rest else field k v (set_property rest key value)

-- `{ ...a, ...b }`
abbrev pub spread_over : Fields → Fields → Fields
spread_over fields end = fields
spread_over fields (field key value rest) = spread_over (set_property fields key value) rest

-- `object[key]`, `undefined` if there is no such property.
unfoldable pub property : Fields → String → Value
property end key = undefined
property (field k v rest) key = if k == key then v else property rest key

-- `typeof value === 'string' ? value : undefined`
abbrev pub as_string : Value → Option String
as_string (str s) = some s
as_string _ = none

-- `typeof value === 'number' ? value : undefined`
abbrev pub as_number : Value → Option ℕ
as_number (num n) = some n
as_number _ = none

-- An optional property of the program's own types, as a value.
abbrev pub optional : Option String → Value
optional none = undefined
optional (some s) = str s

abbrev pub optional_number : Option ℕ → Value
optional_number none = undefined
optional_number (some n) = num n

-- `value ?? null`
abbrev pub or_null : Value → Value
or_null undefined = null
or_null v = v
