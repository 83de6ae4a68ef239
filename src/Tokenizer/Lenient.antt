-- ===== src/Tokenizer/Lenient.antt =====
-- ethabi/src/token/lenient.rs: the tokenizer that also takes decimal numbers, with units.
use ethabi.Base.{
  ℕ, ◌-◌, ◌/◌, ◌+◌, ◌==◌, ltb, if◌then◌else◌, Bool, ◌&&◌, ◌||◌, Option, some, none, [], ◌∷◌, length,
  Bytes, Result, ok, err, panic, Error, other, ◌>>=◌, ok_or, text, text_eq, ◌≡◌, ◌^◌, ◌*◌, ◌<◌, ◌⊎◌,
  inl, inr, leb,
}
use ethabi.Externs.{Externs}
use ethabi.Tokenizer.{starts_with}
use ethabi.Tokenizer.Structs.{TokenizerMethods}
use ethabi.Tokenizer.Strict.{strict_tokenizer}

pub data FromDecStrErr : Type 0 where
  invalid_character invalid_length : FromDecStrErr

-- What `RE` captures of a text: the integer, the fraction with its point, and the unit.
pub record Captures : Type 0 where
  pub integer : Bytes
  pub fract : Option Bytes
  pub units : Bytes

-- The code of other crates that the tokenizer calls: hex, regex, and the arithmetic of `U256`.
pub record Decimals : Type 0 where
  pub hex_decode : Bytes → Option Bytes
  pub captures : Bytes → Option Captures
  pub from_dec_str : Bytes → FromDecStrErr ⊎ ℕ
  -- `FromDecStrErr::to_string`
  pub to_string : FromDecStrErr → Bytes
  pub checked_mul : ℕ → ℕ → Option ℕ
  pub checked_add : ℕ → ℕ → Option ℕ
  pub checked_sub : ℕ → ℕ → Option ℕ
  -- `pow` and `+` panic when they overflow.
  pub pow : ℕ → ℕ → Result ℕ
  pub plus : ℕ → ℕ → Result ℕ
  pub complement : ℕ → ℕ
  pub max_value : ℕ

-- `checked_mul` and the others, on values below 2 ^ 256.
abbrev pub checked : ℕ → Option ℕ
checked v = if ltb v (2 ^ 256) then some v else none

-- What the callers rely on.
pub record IsDecimals (d : Decimals) : Type 0 where
  pub dec_bound : (s : Bytes) (v : ℕ) → d.from_dec_str s ≡ inr v → v < 2 ^ 256
  pub mul_checked : (a b : ℕ) → a < 2 ^ 256 → b < 2 ^ 256 → d.checked_mul a b ≡ checked (a * b)
  pub add_checked : (a b : ℕ) → a < 2 ^ 256 → b < 2 ^ 256 → d.checked_add a b ≡ checked (a + b)
  pub sub_checked :
      (a b : ℕ)
      → a < 2 ^ 256
      → b < 2 ^ 256
      → d.checked_sub a b ≡ (if leb b a then some (a - b) else none)
  pub pow_exact : (a b : ℕ) → a ^ b < 2 ^ 256 → d.pow a b ≡ ok (a ^ b)
  pub plus_exact : (a b : ℕ) → a + b < 2 ^ 256 → d.plus a b ≡ ok (a + b)
  pub complement_exact : (a : ℕ) → a < 2 ^ 256 → d.complement a ≡ 2 ^ 256 - 1 - a
  pub max_exact : d.max_value ≡ 2 ^ 256 - 1

-- `impl From<FromDecStrErr> for Error`
unfoldable pub from_dec_error : FromDecStrErr → Error
from_dec_error invalid_character = other (text "Uint parse error: InvalidCharacter")
from_dec_error invalid_length = other (text "Uint parse error: InvalidLength")

-- `s.trim_start_matches(c)`
unfoldable pub trim_start_matches : Bytes → ℕ → Bytes
trim_start_matches [] c = []
trim_start_matches (b ∷ bs) c =
    let rest = trim_start_matches bs c in if b == c then rest else b ∷ bs

-- `units.to_lowercase()`, whose letters `RE` makes ASCII ones.
unfoldable pub to_lowercase : Bytes → Bytes
to_lowercase [] = []
to_lowercase (b ∷ bs) = (if leb 65 b && leb b 90 then b + 32 else b) ∷ to_lowercase bs

unfoldable pub unit_power : Bytes → Option ℕ
unit_power units =
    if text_eq units (text "ether")
    then some 18
    else if text_eq units (text "gwei")
        || text_eq units (text "nano")
        || text_eq units (text "nanoether")
    then some 9
    else if text_eq units (text "wei")
    then some 0
    else none

-- `if result.is_ok() { return result; }`, and the rest of the function.
abbrev pub unless_ok : Result Bytes → Result Bytes → Result Bytes
unless_ok (ok word) rest = ok word
unless_ok (err e) rest = rest
unless_ok panic rest = panic

module _ (x : Externs) (d : Decimals) where
  -- `Uint::from_dec_str(s)?`
  unfoldable pub from_dec : Bytes → Result ℕ
  unfolding from_dec_error
  from_dec s = elim (d.from_dec_str s) [ inl e ↦ err (from_dec_error e) | inr v ↦ ok v ]

  -- The fraction, as a number of the smallest unit.
  unfoldable pub fraction : Bytes → ℕ → FromDecStrErr → Result ℕ
  unfolding from_dec
  fraction fract units dec_error = do
    fract_pow ← ok_or (d.checked_sub units (length fract)) (from_dec_error dec_error)
    parsed ← from_dec fract
    scale ← d.pow 10 fract_pow
    ok_or (d.checked_mul parsed scale) (other (d.to_string dec_error))

  -- The number with a unit that `RE` captured.
  unfoldable pub with_units : Captures → FromDecStrErr → Result ℕ
  unfolding trim_start_matches to_lowercase unit_power fraction
  with_units captures dec_error =
      let fract : Bytes = elim captures.fract [ some c ↦ trim_start_matches c b'.' | none ↦ [] ] in
      ok_or (unit_power (to_lowercase captures.units)) (from_dec_error dec_error) >>= λ units.
      from_dec captures.integer >>= λ whole. d.pow 10 units >>= λ scale.
      let integer = d.checked_mul whole scale in
      if length fract == 0
      then ok_or integer (from_dec_error dec_error)
      else (fraction fract units dec_error >>= λ part.
          ok_or (elim integer [ some v ↦ d.checked_add v part | none ↦ none ])
            (other (d.to_string dec_error)))

  unfoldable pub tokenize_uint : Bytes → Result Bytes
  unfolding strict_tokenizer with_units
  tokenize_uint value =
      unless_ok ((strict_tokenizer d.hex_decode).tokenize_uint value) (elim (d.from_dec_str value) [
        | inr v ↦ ok (x.u256_to_word v)
        | inl dec_error ↦ elim (d.captures value) [
          | some captures ↦ with_units captures dec_error >>= λ v. ok (x.u256_to_word v)
          | none ↦ err (from_dec_error dec_error)
        ]
      ])

  -- The word of a number with a sign, in two's complement.
  unfoldable pub signed_word : Bool → ℕ → Result Bytes
  signed_word negative abs =
      let max = d.max_value / 2 in
      if negative
      then (if abs == 0
          then ok (x.u256_to_word abs)
          else (d.plus max 1 >>= λ least.
              if ltb least abs
              then err (other (text "int256 parse error: Underflow"))
              else (d.plus (d.complement abs) 1 >>= λ v. ok (x.u256_to_word v))))
      else (if ltb max abs
          then err (other (text "int256 parse error: Overflow"))
          else ok (x.u256_to_word abs))

  unfoldable pub tokenize_int : Bytes → Result Bytes
  unfolding strict_tokenizer signed_word starts_with
  tokenize_int value =
      unless_ok ((strict_tokenizer d.hex_decode).tokenize_int value) (
        from_dec (trim_start_matches value b'-') >>= λ abs.
        signed_word (starts_with value b'-') abs)

  -- The other kinds of values are read as the strict tokenizer reads them.
  unfoldable pub lenient_tokenizer : TokenizerMethods
  unfolding tokenize_uint tokenize_int
  lenient_tokenizer = record (strict_tokenizer d.hex_decode) {
    tokenize_uint = tokenize_uint;
    tokenize_int = tokenize_int;
  }
