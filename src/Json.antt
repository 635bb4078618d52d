-- ===== src/Json.antt =====
-- `serde_json::Value`, of which the program calls four accessors.
use cryptomeria.Common.{ℕ, List, Option, String}
use cryptomeria.Common.Int.{ℤ}

pub record Json {ℓ κ} (F : Type ℓ) (V : Type κ) : Type (ℓ ⊔ κ) where
  -- `Value::get` with a text key
  pub get : V → String → Option V
  pub as_array : V → Option (List V)
  pub as_str : V → Option String
  pub as_f64 : V → Option F

-- `Option::and_then`
abbrev pub and_then {ℓ κ} : {A : Type ℓ} {B : Type κ} → Option A → (A → Option B) → Option B
and_then Option.none k = Option.none
and_then (Option.some a) k = k a

-- What serde hands to a visitor: an i64, a u64, an f64 or a text.
pub data Scalar {ℓ} (F : Type ℓ) : Type ℓ where
  signed : ℤ → Scalar F
  unsigned : ℕ → Scalar F
  float : F → Scalar F
  string : String → Scalar F

-- `to_string` of the three kinds of number
pub record ShowNumber {ℓ} (F : Type ℓ) : Type ℓ where
  pub show_i64 : ℤ → String
  pub show_u64 : ℕ → String
  pub show_f64 : F → String

-- The values that `json!` builds here: a text, an array, or an object as the list of its fields.
mutual
  pub data Literal : Type 0 where
    json_text : String → Literal
    array : Items → Literal
    object : Fields → Literal

  pub data Items : Type 0 where
    no_item : Items
    item : Literal → Items → Items

  pub data Fields : Type 0 where
    no_field : Fields
    field : String → Literal → Fields → Fields
