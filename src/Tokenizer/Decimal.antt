-- ===== src/Tokenizer/Decimal.antt =====
-- The decimal numbers of the lenient tokenizer (ethabi/src/token/lenient.rs): their values and bounds.
use ethabi.Base.{
  ℕ, zero, suc, ◌+◌, ◌-◌, ◌/◌, ◌^◌, ◌≤◌, ◌<◌, ◌==◌, ltb, leb, if◌then◌else◌, Bool, true, false,
  Bool-cases, Bytes, Result, ok, err, Error, ◌>>=◌, map_ok, ℤ, pos, negsuc, ◌≡◌, refl, ap, ◌∙◌, ◌⊎◌,
  inl, inr, arith, text, other,
}
use ethabi.Externs.{Externs, IsExterns}
use ethabi.ParamType
use ethabi.Token.{Token}
use ethabi.Tokenizer.{starts_with}
use ethabi.Tokenizer.Structs.{tokenize}
use ethabi.Tokenizer.Strict.{strict_tokenizer}
use ethabi.Tokenizer.Lenient.{
  Decimals, IsDecimals, unless_ok, trim_start_matches, from_dec, signed_word, tokenize_int,
  lenient_tokenizer,
}

-- The integer that a sign and an absolute value write, and the one that a word stands for.
abbrev pub integer : Bool → ℕ → ℤ
integer true zero = pos 0
integer true (suc n) = negsuc n
integer false n = pos n

abbrev pub signed : ℕ → ℤ
signed v = if ltb v (2 ^ 255) then pos v else negsuc (2 ^ 256 - 1 - v)

-- Whether the integer is one of 256 bits.
abbrev pub fits_int : Bool → ℕ → Bool
fits_int true abs = leb abs (2 ^ 255)
fits_int false abs = ltb abs (2 ^ 255)

abbrev Read : Decimals → Externs → Bool → ℕ → Result Bytes → Type 0
Read d x negative abs r =
    ((fits_int negative abs ≡ true)
      × ((v : ℕ) × (r ≡ ok (x.u256_to_word v)) × (v < 2 ^ 256) × (signed v ≡ integer negative abs)))
    ⊎ ((fits_int negative abs ≡ false) × ((e : Error) × (r ≡ err e)))

module _ (x : Externs) (d : Decimals) (isd : IsDecimals d) where
  half : d.max_value / 2 ≡ 2 ^ 255 - 1
  half = (rw isd.max_exact refl)

  signed_word-nonnegative :
      (abs : ℕ) → abs < 2 ^ 256 → Read d x false abs (signed_word x d false abs)
  unfolding signed_word
  signed_word-nonnegative abs h = elim (Bool-cases (ltb abs (2 ^ 255))) [
    | inl e ↦
        let in_range : ltb (2 ^ 255 - 1) abs ≡ false = ground arith in
        inl (e, (abs, (rw (half, in_range) refl), h, (rw e refl)))
    | inr e ↦
        let beyond : ltb (2 ^ 255 - 1) abs ≡ true = ground arith in
        inr (e, (other (text "int256 parse error: Overflow"), (rw (half, beyond) refl)))
  ]

  signed_word-negative :
      (n : ℕ) → suc n < 2 ^ 256 → Read d x true (suc n) (signed_word x d true (suc n))
  unfolding signed_word
  signed_word-negative n h =
      let some : (suc n == 0) ≡ false = ground arith in
      let least = isd.plus_exact (2 ^ 255 - 1) 1 (omega arith) in
      elim (Bool-cases (leb (suc n) (2 ^ 255))) [
        | inl e ↦
            let small : suc n ≤ 2 ^ 255 = ground arith in
            let in_range : ltb (2 ^ 255) (suc n) ≡ false = ground arith in
            let v = 2 ^ 256 - 1 - suc n + 1 in
            let flip = isd.complement_exact (suc n) h in
            let up = isd.plus_exact (2 ^ 256 - 1 - suc n) 1 (omega arith) in
            let high : ltb v (2 ^ 255) ≡ false = ground arith in
            let back : 2 ^ 256 - 1 - v ≡ n = omega arith in
            let run : signed_word x d true (suc n) ≡ ok (x.u256_to_word v) =
              rw (half, some, least, in_range, flip, up) refl in
            inl (e, (v, run, omega arith, (rw high (ap negsuc back))))
        | inr e ↦
            let beyond : ltb (2 ^ 255) (suc n) ≡ true = ground arith in
            inr (
              e,
              (other (text "int256 parse error: Underflow"), (rw (half, some, least, beyond) refl)),
            )
      ]

  signed_word-Read :
      (negative : Bool) (abs : ℕ)
      → abs < 2 ^ 256
      → Read d x negative abs (signed_word x d negative abs)
  unfolding signed_word
  signed_word-Read false abs h = signed_word-nonnegative abs h
  signed_word-Read true zero h = inl (refl, (0, refl, omega arith, refl))
  signed_word-Read true (suc n) h = signed_word-negative n h

pub from_dec-value :
    (x : Externs) (d : Decimals) (s : Bytes) (v : ℕ)
    → d.from_dec_str s ≡ inr v
    → from_dec x d s ≡ ok v
unfolding from_dec
from_dec-value x d s v h = rw (h, from_dec) refl

tokenize_int-signed_word :
    (x : Externs) (d : Decimals) (value : Bytes) (e : Error) (abs : ℕ)
    → (strict_tokenizer d.hex_decode).tokenize_int value ≡ err e
    → d.from_dec_str (trim_start_matches value b'-') ≡ inr abs
    → tokenize_int x d value ≡ signed_word x d (starts_with value b'-') abs
unfolding tokenize_int from_dec
tokenize_int-signed_word x d value e abs strict dec =
    ap
      (λ r. unless_ok r (
        from_dec x d (trim_start_matches value b'-') >>= λ abs.
        signed_word x d (starts_with value b'-') abs))
      strict
    ∙ ap (λ r. r >>= λ abs. signed_word x d (starts_with value b'-') abs)
        (from_dec-value x d (trim_start_matches value b'-') abs dec)

-- A decimal number, with or without a sign, that is no hexadecimal word: it gives the token of the
-- integer it writes, in two's complement, if that is one of 256 bits, and an error otherwise.
pub tokenize_int_value :
    (x : Externs) (d : Decimals) (size : ℕ) (value : Bytes) (e : Error) (abs : ℕ)
    → IsExterns x
    → IsDecimals d
    → (strict_tokenizer d.hex_decode).tokenize_int value ≡ err e
    → d.from_dec_str (trim_start_matches value b'-') ≡ inr abs
    → ((fits_int (starts_with value b'-') abs ≡ true)
        × ((v : ℕ) × (tokenize x (lenient_tokenizer x d) (ParamType.int size) value
              ≡ ok (Token.int v))
            × (v < 2 ^ 256)
            × (signed v ≡ integer (starts_with value b'-') abs)))
      ⊎ ((fits_int (starts_with value b'-') abs ≡ false)
          × ((e : Error) × (tokenize x (lenient_tokenizer x d) (ParamType.int size) value ≡ err e)))
unfolding tokenize lenient_tokenizer
tokenize_int_value x d size value e abs isx isd strict dec =
    let negative = starts_with value b'-' in
    let run = tokenize_int-signed_word x d value e abs strict dec in
    let token : Bytes → Token = λ w. Token.int (x.u256_from_word w) in
    elim (signed_word-Read x d isd negative abs
      (isd.dec_bound (trim_start_matches value b'-') abs dec)) [
        | inl r ↦ inl (
          r.0,
          (
            r.1.0,
            ap (map_ok token) (run ∙ r.1.1)
                ∙ ap (λ v. ok (Token.int v)) (isx.word_roundtrip r.1.0 r.1.2),
            r.1.2,
            r.1.3,
          ),
        )
        | inr r ↦ inr (r.0, (r.1.0, ap (map_ok token) (run ∙ r.1.1)))
      ]
