-- ===== src/Json.antt =====
-- What serde hands to a visitor, and takes from a `Serialize` implementation: the values of JSON, as
-- far as ethabi uses them. A map is its entries in their order, with repeated keys.
use ethabi.Base.{Bool, Bytes, Result, ok, err, serde_json, invalid_type}

mutual
  pub data Json : Type 0 where
    string : Bytes → Json
    bool : Bool → Json
    array : Jsons → Json
    object : Entries → Json
    -- `null` or a number.
    other : Json

  pub data Jsons : Type 0 where
    nil : Jsons
    cons : Json → Jsons → Jsons

  pub data Entries : Type 0 where
    end : Entries
    entry : Bytes → Json → Entries → Entries

-- `map.next_value::<String>()`
abbrev pub string_value : Json → Result Bytes
string_value (string s) = ok s
string_value _ = err (serde_json invalid_type)

-- `map.next_value::<bool>()`
abbrev pub bool_value : Json → Result Bool
bool_value (bool b) = ok b
bool_value _ = err (serde_json invalid_type)
