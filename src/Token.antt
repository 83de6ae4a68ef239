-- ===== src/Token.antt =====
-- ethabi/src/token/token.rs: the values that are encoded and decoded.
pub mod Typing
pub mod Dynamic
pub mod Checks
pub mod Accepted
pub mod Conversions
use ethabi.Base.{
  ℕ, suc, Bool, true, false, ◌||◌, ◌==◌, leb, if◌then◌else◌, length, Bytes, Result, ok, panic,
  ◌>>=◌,
}
use ethabi.ParamType
use ethabi.ParamType.{ParamType, ParamTypes}

-- `enum Token`. An `Address` is its 20 bytes, an `Int` or `Uint` the value of its `U256`, and a
-- `String` its UTF-8 bytes. `Tokens` is `Vec<Token>`.
mutual
  pub data Token : Type 0 where
    address : Bytes → Token
    fixed_bytes : Bytes → Token
    bytes : Bytes → Token
    int : ℕ → Token
    uint : ℕ → Token
    bool : Bool → Token
    string : Bytes → Token
    fixed_array : Tokens → Token
    array : Tokens → Token
    tuple : Tokens → Token

  pub data Tokens : Type 0 where
    nil : Tokens
    cons : Token → Tokens → Tokens

-- `tokens.len()`
abbrev pub count : Tokens → ℕ
count nil = 0
count (cons t ts) = suc (count ts)

-- `tokens.push(token)`
abbrev pub push : Tokens → Token → Tokens
push nil t = cons t nil
push (cons u us) t = cons u (push us t)

abbrev pub append : Tokens → Tokens → Tokens
append nil us = us
append (cons t ts) us = cons t (append ts us)

-- The test of the next element of an `all`, which stops at the first `false`.
abbrev pub and_then : Result Bool → Result Bool → Result Bool
and_then r s = r >>= λ b. if b then s else ok false

-- Whether the token fits the type. The tuple's types are indexed by the position of the token,
-- and an index past their end panics.
unfoldable mutual
  pub type_check : Token → ParamType → Result Bool
  type_check (address a) ParamType.address = ok true
  type_check (bytes bs) ParamType.bytes = ok true
  type_check (int v) (ParamType.int n) = ok true
  type_check (uint v) (ParamType.uint n) = ok true
  type_check (bool b) ParamType.bool = ok true
  type_check (string s) ParamType.string = ok true
  type_check (fixed_bytes bs) (ParamType.fixed_bytes size) = ok (leb (length bs) size)
  type_check (array ts) (ParamType.array p) = all_check ts p
  type_check (fixed_array ts) (ParamType.fixed_array p size) =
      if size == count ts then all_check ts p else ok false
  type_check (tuple ts) (ParamType.tuple ps) = fields_check ts ps
  type_check _ _ = ok false

  -- `tokens.iter().all(|t| t.type_check(param_type))`
  pub all_check : Tokens → ParamType → Result Bool
  all_check nil p = ok true
  all_check (cons t ts) p = and_then (type_check t p) (all_check ts p)

  -- `tokens.iter().enumerate().all(|(i, t)| t.type_check(&param_type[i]))`
  pub fields_check : Tokens → ParamTypes → Result Bool
  fields_check nil ps = ok true
  fields_check (cons t ts) ParamTypes.nil = panic
  fields_check (cons t ts) (ParamTypes.cons p ps) = and_then (type_check t p) (fields_check ts ps)

-- The `zip` of the types with the tokens ends with the shorter.
unfoldable pub zip_check : Tokens → ParamTypes → Result Bool
zip_check (cons t ts) (ParamTypes.cons p ps) = and_then (type_check t p) (zip_check ts ps)
zip_check _ _ = ok true

unfoldable pub types_check : Tokens → ParamTypes → Result Bool
unfolding zip_check type_check
types_check ts ps = if ParamType.count ps == count ts then zip_check ts ps else ok false

unfoldable mutual
  pub is_dynamic : Token → Bool
  is_dynamic (bytes bs) = true
  is_dynamic (string s) = true
  is_dynamic (array ts) = true
  is_dynamic (fixed_array ts) = any_dynamic ts
  is_dynamic (tuple ts) = any_dynamic ts
  is_dynamic _ = false

  -- `tokens.iter().any(|token| token.is_dynamic())`
  pub any_dynamic : Tokens → Bool
  any_dynamic nil = false
  any_dynamic (cons t ts) = is_dynamic t || any_dynamic ts
