-- ===== src/Token/Typing.antt =====
-- The values that Rust's types allow in a `Token`, and the tokens that fit a parameter type exactly.
use ethabi.Base.{◌≤◌, ◌<◌, ◌^◌, ◌≡◌, true, length}
use ethabi.Utf8.{is_utf8}
use ethabi.ParamType.{ParamType, ParamTypes}
use ethabi.Token.{
  Token, Tokens, address, fixed_bytes, bytes, int, uint, bool, string, fixed_array, array, tuple,
  nil, cons, count,
}

-- An `H160` has 20 bytes, a `U256` is below 2 ^ 256, and a `String` is well-formed UTF-8. The
-- items of a dynamic array are fewer than 2 ^ 32, so that their number can be written in a word's
-- last four bytes.
abbrev mutual
  pub IsToken : Token → Type 0
  IsToken (address a) = length a ≡ 20
  IsToken (int v) = v < 2 ^ 256
  IsToken (uint v) = v < 2 ^ 256
  IsToken (string s) = is_utf8 s ≡ true
  IsToken (fixed_array ts) = AreTokens ts
  IsToken (array ts) = AreTokens ts × (count ts < 2 ^ 32)
  IsToken (tuple ts) = AreTokens ts
  IsToken _ = Unit {0}

  pub AreTokens : Tokens → Type 0
  AreTokens nil = Unit {0}
  AreTokens (cons t ts) = IsToken t × AreTokens ts

-- The token is a value of the type as Solidity has it: `bytesN` has N from 1 to 32 and holds N
-- bytes, a fixed array has its size, not 0, and a tuple has a token for each type, one at least.
abbrev mutual
  pub HasType : Token → ParamType → Type 0
  HasType (address a) ParamType.address = Unit {0}
  HasType (bytes bs) ParamType.bytes = Unit {0}
  HasType (int v) (ParamType.int n) = Unit {0}
  HasType (uint v) (ParamType.uint n) = Unit {0}
  HasType (bool b) ParamType.bool = Unit {0}
  HasType (string s) ParamType.string = Unit {0}
  HasType (fixed_bytes bs) (ParamType.fixed_bytes n) = (length bs ≡ n) × (1 ≤ n) × (n ≤ 32)
  HasType (array ts) (ParamType.array p) = AllHaveType ts p
  HasType (fixed_array ts) (ParamType.fixed_array p n) = (count ts ≡ n) × (1 ≤ n) × AllHaveType ts p
  HasType (tuple ts) (ParamType.tuple ps) = (1 ≤ count ts) × HaveTypes ts ps
  HasType _ _ = ⊥

  pub AllHaveType : Tokens → ParamType → Type 0
  AllHaveType nil p = Unit {0}
  AllHaveType (cons t ts) p = HasType t p × AllHaveType ts p

  pub HaveTypes : Tokens → ParamTypes → Type 0
  HaveTypes nil ParamTypes.nil = Unit {0}
  HaveTypes (cons t ts) (ParamTypes.cons p ps) = HasType t p × HaveTypes ts ps
  HaveTypes _ _ = ⊥
