-- ===== src/Token/Conversions.antt =====
-- ethabi/src/token/token.rs: a token's text, and what is inside it.
use ethabi.Base.{ℕ, Bool, Option, some, none, List, [], ◌∷◌, ◌++◌, Bytes, text, join, if◌then◌else◌}
use ethabi.Token.{
  Token, Tokens, address, fixed_bytes, bytes, int, uint, bool, string, fixed_array, array, tuple,
  nil, cons,
}

-- How other crates print: the lower-case hexadecimal `H160` and `U256` (ethereum-types) and
-- `hex::encode`.
pub record Printers : Type 0 where
  pub address_hex : Bytes → Bytes
  pub u256_hex : ℕ → Bytes
  pub hex_encode : Bytes → Bytes

module _ (printers : Printers) where
  -- `impl Display for Token`.
  unfoldable mutual
    pub display : Token → Bytes
    display (bool b) = if b then text "true" else text "false"
    display (string s) = s
    display (address a) = printers.address_hex a
    display (bytes bs) = printers.hex_encode bs
    display (fixed_bytes bs) = printers.hex_encode bs
    display (uint i) = printers.u256_hex i
    display (int i) = printers.u256_hex i
    display (array ts) = text "[" ++ (join (text ",") (display_all ts) ++ text "]")
    display (fixed_array ts) = text "[" ++ (join (text ",") (display_all ts) ++ text "]")
    display (tuple ts) = text "(" ++ (join (text ",") (display_all ts) ++ text ")")

    -- `arr.iter().map(|t| format!("{t}")).collect()`
    pub display_all : Tokens → List Bytes
    display_all nil = []
    display_all (cons t ts) = display t ∷ display_all ts

unfoldable pub into_address : Token → Option Bytes
into_address (address a) = some a
into_address _ = none

unfoldable pub into_fixed_bytes : Token → Option Bytes
into_fixed_bytes (fixed_bytes bs) = some bs
into_fixed_bytes _ = none

unfoldable pub into_bytes : Token → Option Bytes
into_bytes (bytes bs) = some bs
into_bytes _ = none

unfoldable pub into_int : Token → Option ℕ
into_int (int i) = some i
into_int _ = none

unfoldable pub into_uint : Token → Option ℕ
into_uint (uint i) = some i
into_uint _ = none

unfoldable pub into_bool : Token → Option Bool
into_bool (bool b) = some b
into_bool _ = none

unfoldable pub into_string : Token → Option Bytes
into_string (string s) = some s
into_string _ = none

unfoldable pub into_fixed_array : Token → Option Tokens
into_fixed_array (fixed_array ts) = some ts
into_fixed_array _ = none

unfoldable pub into_array : Token → Option Tokens
into_array (array ts) = some ts
into_array _ = none

unfoldable pub into_tuple : Token → Option Tokens
into_tuple (tuple ts) = some ts
into_tuple _ = none
