-- ===== src/Json.antt =====
-- JSON values, as `serde_json::Value` and `simd_json::OwnedValue` give them to the program.
use discord_gateway_proxy.Prelude.{
  ℕ, Bool, Option, none, some, Str, if◌then◌else◌, ◌≡◌, str_beq, arith, str_beq_iff, refl,
}
use discord_gateway_proxy.Map.{Map}

mutual
  pub data Value : Type 0 where
    null : Value
    bool : Bool → Value
    -- A number that fits `u64`.
    num : ℕ → Value
    -- Any other number, as it is written.
    other_num : Str → Value
    str : Str → Value
    arr : Items → Value
    obj : Fields → Value

  pub data Items : Type 0 where
    nil : Items
    cons : Value → Items → Items

  pub data Fields : Type 0 where
    end : Fields
    field : Str → Value → Fields → Fields

-- src/model.rs: `JsonObject`.
abbrev pub JsonObject : Type 0
JsonObject = Map Str Value

unfoldable pub as_str : Value → Option Str
as_str (str s) = some s
as_str _ = none

unfoldable pub as_u64 : Value → Option ℕ
as_u64 (num n) = some n
as_u64 _ = none

unfoldable pub as_object : Value → Option Fields
as_object (obj fields) = some fields
as_object _ = none

-- A parsed object holds each key once.
unfoldable pub get_field : Fields → Str → Option Value
get_field end key = none
get_field (field k value fields) key = if str_beq k key then some value else get_field fields key

-- `object.insert(key, value)`.
unfoldable pub set_field : Fields → Str → Value → Fields
set_field end key new = field key new end
set_field (field k value fields) key new =
    let rest = set_field fields key new in
    if str_beq k key then field k new fields else field k value rest

pub get_field-set_field :
    (fields : Fields) (key other : Str) (new : Value)
    → get_field (set_field fields key new) other
      ≡ (if str_beq key other then some new else get_field fields other)
unfolding get_field set_field
get_field-set_field end key other new = refl
get_field-set_field (field k value fields) key other new = ground (
  arith,
  get_field-set_field fields key other new,
  str_beq_iff k key,
  str_beq_iff k other,
  str_beq_iff key other,
)
