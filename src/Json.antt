-- ===== src/Json.antt =====
-- The values of serde_json that src/probe.rs and src/jwt.rs match on. A number is an unsigned
-- integer, a negative integer or a float, as `serde_json::Number` keeps it.
use saimiris_gateway.Prelude.{
  str_eq, if◌then◌else◌, ℕ, String, Bool, Option, none, some, List, [], ◌∷◌,
}

pub data Number : Type 0 where
  pos_int : ℕ → Number
  neg_int : ℕ → Number
  float : ℕ → Number

-- `Number::as_u64`
abbrev pub as_u64 : Number → Option ℕ
as_u64 (pos_int n) = some n
as_u64 (neg_int n) = none
as_u64 (float bits) = none

mutual
  pub data Value : Type 0 where
    null : Value
    bool : Bool → Value
    number : Number → Value
    string : String → Value
    array : Items → Value
    object : Fields → Value

  pub data Items : Type 0 where
    nil : Items
    cons : Value → Items → Items

  pub data Fields : Type 0 where
    end : Fields
    field : String → Value → Fields → Fields

abbrev pub elements : Items → List Value
elements nil = []
elements (cons v vs) = v ∷ elements vs

-- The entry of a map's key, whose keys are distinct.
abbrev pub entry : String → Fields → Option Value
entry k end = none
entry k (field j v rest) = if str_eq j k then some v else entry k rest

-- `value[key]`: `Null` on a missing key and on a value that is no object.
abbrev pub index : String → Value → Value
index k null = null
index k (bool b) = null
index k (number n) = null
index k (string s) = null
index k (array vs) = null
index k (object fields) = elim (entry k fields) [ some v ↦ v | none ↦ null ]

abbrev pub as_str : Value → Option String
as_str null = none
as_str (bool b) = none
as_str (number n) = none
as_str (string s) = some s
as_str (array vs) = none
as_str (object fields) = none

abbrev pub as_array : Value → Option (List Value)
as_array null = none
as_array (bool b) = none
as_array (number n) = none
as_array (string s) = none
as_array (array vs) = some (elements vs)
as_array (object fields) = none
