-- ===== src/Json.antt =====
-- `serde_json::Value`: the enum that the source matches on. A `Number` is known by a handle, and
-- what the source asks of it (`is_i64`) is a parameter where it is asked.
use egras.Prelude.{ℕ, String, Bool, true, false, Option, none, some, List, [], ◌∷◌}

mutual
  pub data Value : Type 0 where
    null : Value
    bool : Bool → Value
    number : ℕ → Value
    string : String → Value
    array : Items → Value
    object : Entries → Value

  pub data Items : Type 0 where
    nil : Items
    cons : Value → Items → Items

  pub data Entries : Type 0 where
    end : Entries
    entry : String → Value → Entries → Entries

abbrev pub items : Items → List Value
items nil = []
items (cons v vs) = v ∷ items vs

-- `Value::as_array`
abbrev pub as_array : Value → Option (List Value)
as_array (array vs) = some (items vs)
as_array _ = none

-- `Value::as_str`
abbrev pub as_str : Value → Option String
as_str (string s) = some s
as_str _ = none

-- `Value::is_string`
abbrev pub is_string : Value → Bool
is_string (string _) = true
is_string _ = false

-- `json!(o)` of an `Option<&Value>`
abbrev pub of_option : Option Value → Value
of_option none = null
of_option (some v) = v

-- `json!` of a slice of strings
abbrev pub of_strings : List String → Items
of_strings [] = nil
of_strings (s ∷ ss) = cons (string s) (of_strings ss)
