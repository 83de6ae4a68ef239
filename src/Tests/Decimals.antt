-- ===== src/Tests/Decimals.antt =====
-- Decimal numbers in the lenient tokenizer.
use ethabi.Base.{
  ℕ, ◌+◌, ◌-◌, ◌*◌, ◌/◌, ◌^◌, ◌<◌, ltb, leb, if◌then◌else◌, ◌≡◌, refl, Bool, true, false, ◌&&◌,
  some, none, Option, [], ◌∷◌, List, Bytes, Result, ok, err, panic, Error, hex, arith, text,
  text_eq, ◌⊎◌, inl, inr,
}
use ethabi.ParamType
use ethabi.Token.{Token}
use ethabi.Tokenizer.{starts_with}
use ethabi.Tokenizer.Structs.{tokenize}
use ethabi.Tokenizer.Strict.{strict_tokenizer}
use ethabi.Tokenizer.Lenient.{
  Decimals, IsDecimals, FromDecStrErr, invalid_character, invalid_length, Captures, checked,
  trim_start_matches, to_lowercase, unit_power, lenient_tokenizer,
}
use ethabi.Tokenizer.Decimal.{fits_int, signed, integer, tokenize_int_value}
use ethabi.Tokenizer.Units.{tokenize_units_value}
use ethabi.Tests.Samples.{externs, externs-IsExterns}

-- A number is read from its digits, without a bound on their count.
abbrev parse : ℕ → Bytes → FromDecStrErr ⊎ ℕ
parse acc [] = inr acc
parse acc (b ∷ bs) =
    let rest = parse (acc * 10 + (b - 48)) bs in
    if leb 48 b && leb b 57 then rest else inl invalid_character

abbrev bounded : FromDecStrErr ⊎ ℕ → FromDecStrErr ⊎ ℕ
bounded (inl e) = inl e
bounded (inr v) = if ltb v (2 ^ 256) then inr v else inl invalid_length

bounded_lem : (r : FromDecStrErr ⊎ ℕ) (v : ℕ) → bounded r ≡ inr v → v < 2 ^ 256
bounded_lem (inl e) v h = absurd (cc)
bounded_lem (inr w) v h = ground arith

abbrev exact : ℕ → Result ℕ
exact v = if ltb v (2 ^ 256) then ok v else panic

exact_lem : (v : ℕ) → v < 2 ^ 256 → exact v ≡ ok v
exact_lem v h = ground arith

abbrev ether : Captures
ether = record { integer = text "1"; fract = some (text ".5"); units = text "ether" }

abbrev pub decimals : Decimals
decimals = record {
  hex_decode = λ _. none;
  captures = λ _. some ether;
  from_dec_str = λ s. bounded (parse 0 s);
  to_string = λ _. text "invalid";
  checked_mul = λ a b. checked (a * b);
  checked_add = λ a b. checked (a + b);
  checked_sub = λ a b. if leb b a then some (a - b) else none;
  pow = λ a b. exact (a ^ b);
  plus = λ a b. exact (a + b);
  complement = λ a. 2 ^ 256 - 1 - a;
  max_value = 2 ^ 256 - 1;
}

decimals-IsDecimals : IsDecimals decimals
decimals-IsDecimals = record {
  dec_bound = λ s v h. bounded_lem (parse 0 s) v h;
  mul_checked = λ a b h k. refl;
  add_checked = λ a b h k. refl;
  sub_checked = λ a b h k. refl;
  pow_exact = λ a b h. exact_lem (a ^ b) h;
  plus_exact = λ a b h. exact_lem (a + b) h;
  complement_exact = λ a h. refl;
  max_exact = refl;
}

minus_one :
    tokenize externs (lenient_tokenizer externs decimals) (ParamType.int 256) (text "-1")
    ≡ ok (Token.int (2 ^ 256 - 1))
unfolding tokenize lenient_tokenizer trim_start_matches ethabi.Base.text_eq
minus_one = refl

one_and_a_half :
    tokenize externs (lenient_tokenizer externs decimals) (ParamType.uint 256) (text "1.5 ether")
    ≡ ok (Token.uint 1500000000000000000)
unfolding tokenize lenient_tokenizer ethabi.Base.text_eq
one_and_a_half = refl

no_word : (strict_tokenizer (λ _. none)).tokenize_int (text "-1") ≡ err hex
unfolding strict_tokenizer
no_word = refl

minus : decimals.from_dec_str (trim_start_matches (text "-1") b'-') ≡ inr 1
unfolding trim_start_matches
minus = refl

tokenize_int_value_example :
    ((fits_int (starts_with (text "-1") b'-') 1 ≡ true)
      × ((v : ℕ) × (tokenize externs
              (lenient_tokenizer externs decimals)
              (ParamType.int 256)
              (text "-1")
            ≡ ok (Token.int v))
          × (v < 2 ^ 256)
          × (signed v ≡ integer (starts_with (text "-1") b'-') 1)))
    ⊎ ((fits_int (starts_with (text "-1") b'-') 1 ≡ false)
        × ((e : Error) × (tokenize externs
                (lenient_tokenizer externs decimals)
                (ParamType.int 256)
                (text "-1")
              ≡ err e)))
tokenize_int_value_example =
    tokenize_int_value externs decimals 256 (text "-1") hex 1 externs-IsExterns decimals-IsDecimals
      no_word minus

no_uint : (strict_tokenizer (λ _. none)).tokenize_uint (text "1.5 ether") ≡ err hex
unfolding strict_tokenizer
no_uint = refl

is_ether : unit_power (to_lowercase (text "ether")) ≡ some 18
unfolding unit_power to_lowercase ethabi.Base.text_eq
is_ether = refl

five : decimals.from_dec_str (trim_start_matches (text ".5") b'.') ≡ inr 5
unfolding trim_start_matches
five = refl

tokenize_units_value_example :
    ((true ≡ true)
      × ((v : ℕ) × (tokenize externs
              (lenient_tokenizer externs decimals)
              (ParamType.uint 256)
              (text "1.5 ether")
            ≡ ok (Token.uint v))
          × (v < 2 ^ 256)
          × (v * 10 ^ 1 ≡ (1 * 10 ^ 1 + 5) * 10 ^ 18)))
    ⊎ ((true ≡ false)
        × ((e : Error) × (tokenize externs
                (lenient_tokenizer externs decimals)
                (ParamType.uint 256)
                (text "1.5 ether")
              ≡ err e)))
unfolding trim_start_matches
tokenize_units_value_example =
    tokenize_units_value externs decimals 256 (text "1.5 ether") hex invalid_character ether
      (text ".5") 18 1 5 externs-IsExterns decimals-IsDecimals no_uint refl refl is_ether refl refl
      five (omega arith) (omega arith)
