-- ===== src/Protocol/Json.antt =====
-- Values that may stand in a protocol message: `JsonValue` of src/protocol/messages.ts, and
-- the other JavaScript values that reach `sanitizeJsonValue` as `unknown`.
use pi_to_pi.Prelude.{ℕ, suc, Bool, if◌then◌else◌, Text, text_eq, Num}

-- An object is the list of its own entries in enumeration order. `opaque` stands for
-- functions, symbols and big integers.
mutual
  pub data Value : Type 0 where
    undefined null opaque : Value
    string : Text → Value
    boolean : Bool → Value
    number : Num → Value
    array : Items → Value
    object : Fields → Value

  pub data Items : Type 0 where
    nil : Items
    cons : Value → Items → Items

  pub data Fields : Type 0 where
    end : Fields
    field : Text → Value → Fields → Fields

abbrev pub size_items : Items → ℕ
size_items nil = 0
size_items (cons v vs) = suc (size_items vs)

abbrev pub size_fields : Fields → ℕ
size_fields end = 0
size_fields (field k v fs) = suc (size_fields fs)

-- `object[key]`, with `undefined` for a key that is not there.
unfoldable pub get_field : Text → Fields → Value
get_field key end = undefined
get_field key (field k v fs) = if text_eq k key then v else get_field key fs
