-- ===== src/Tokenizer/Units.antt =====
-- Numbers with a unit, as "1.5 ether", in the lenient tokenizer (ethabi/src/token/lenient.rs).
use ethabi.Base.{
  ℕ, ◌+◌, ◌-◌, ◌*◌, ◌^◌, ◌≤◌, ◌<◌, ◌==◌, ltb, leb, true, false, ◌&&◌, Bool-cases, some, none,
  length, Bytes, Result, ok, err, Error, ◌>>=◌, ok_or, map_ok, ◌≡◌, refl, ap, ◌∙◌, ◌⊎◌, inl, inr,
  arith, other,
}
use ethabi.Externs.{Externs, IsExterns}
use ethabi.ParamType
use ethabi.Token.{Token}
use ethabi.Tokenizer.Structs.{tokenize}
use ethabi.Tokenizer.Strict.{strict_tokenizer}
use ethabi.Tokenizer.Decimal.{from_dec-value}
use ethabi.Tokenizer.Lenient.{
  Decimals, IsDecimals, FromDecStrErr, Captures, unless_ok, checked, trim_start_matches,
  to_lowercase, unit_power, from_dec_error, fraction, with_units, tokenize_uint, lenient_tokenizer,
}
use ethabi.Tokenizer.Powers.{power_bound, scaled, unit_power_bound}

module _ (d : Decimals) (isd : IsDecimals d) where
  total :
      (a b : ℕ) (s : Error) (r : Result ℕ)
      → r ≡ ok_or (checked b) s
      → ((ltb (a + b) (2 ^ 256) ≡ true)
          × ((r >>= λ part.
                ok_or (elim (checked a) [ some v ↦ d.checked_add v part | none ↦ none ]) s)
              ≡ ok (a + b)))
        ⊎ ((ltb (a + b) (2 ^ 256) ≡ false)
            × ((r >>= λ part.
                  ok_or (elim (checked a) [ some v ↦ d.checked_add v part | none ↦ none ]) s)
                ≡ err s))
  total a b s r h = elim (Bool-cases (ltb b (2 ^ 256))) [
    | inr e ↦ let big : ltb (a + b) (2 ^ 256) ≡ false = ground arith in inr (big, rw (h, e) refl)
    | inl e ↦ elim (Bool-cases (ltb a (2 ^ 256))) [
      | inr f ↦
          let big : ltb (a + b) (2 ^ 256) ≡ false = ground arith in inr (big, rw (h, e, f) refl)
      | inl f ↦
          let small : a < 2 ^ 256 = ground arith in
          let small' : b < 2 ^ 256 = ground arith in
          let add = isd.add_checked a b small small' in
          elim (Bool-cases (ltb (a + b) (2 ^ 256))) [
            | inl g ↦ inl (g, rw (h, e, f, add, g) refl)
            | inr g ↦ inr (g, rw (h, e, f, add, g) refl)
          ]
    ]
  ]

-- The amount of a number with `l` digits behind the point, in the unit's smallest parts, or an error.
abbrev Amount : ℕ → ℕ → ℕ → ℕ → Result ℕ → Type 0
Amount k i f l r =
    (((leb l k && ltb (i * 10 ^ k + f * 10 ^ (k - l)) (2 ^ 256)) ≡ true)
      × ((v : ℕ) × (r ≡ ok v) × (v < 2 ^ 256) × (v * 10 ^ l ≡ (i * 10 ^ l + f) * 10 ^ k)))
    ⊎ (((leb l k && ltb (i * 10 ^ k + f * 10 ^ (k - l)) (2 ^ 256)) ≡ false)
        × ((e : Error) × (r ≡ err e)))

tokenize_uint-with_units :
    (x : Externs) (d : Decimals) (value : Bytes) (e : Error) (u : FromDecStrErr) (c : Captures)
    → (strict_tokenizer d.hex_decode).tokenize_uint value ≡ err e
    → d.from_dec_str value ≡ inl u
    → d.captures value ≡ some c
    → tokenize_uint x d value ≡ (with_units x d c u >>= λ v. ok (x.u256_to_word v))
unfolding tokenize_uint
tokenize_uint-with_units x d value e u c strict dec cap =
    let rest : Result Bytes = elim (d.from_dec_str value) [
      | inr v ↦ ok (x.u256_to_word v)
      | inl dec_error ↦ elim (d.captures value) [
        | some captures ↦ with_units x d captures dec_error >>= λ v. ok (x.u256_to_word v)
        | none ↦ err (from_dec_error dec_error)
      ]
    ] in
    ap (λ r. unless_ok r rest) strict ∙ (rw (dec, cap) refl)

module _ (x : Externs) (d : Decimals) (isd : IsDecimals d) where
  -- The fraction, when the unit has places for its digits, and when it has not.
  fraction-value :
      (fract : Bytes) (k f : ℕ) (e : FromDecStrErr)
      → k ≤ 18
      → length fract < 2 ^ 64
      → length fract ≤ k
      → d.from_dec_str fract ≡ inr f
      → fraction x d fract k e
        ≡ ok_or (checked (f * 10 ^ (k - length fract))) (other (d.to_string e))
  unfolding fraction
  fraction-value fract k f e hk hl places dec =
      let l = length fract in
      let sub = isd.sub_checked k l (omega arith) (omega arith) in
      let places' : leb l k ≡ true = ground arith in
      let small : 10 ^ (k - l) < 2 ^ 256 = power_bound (k - l) (omega arith) in
      rw
        (
          sub,
          places',
          from_dec-value x d fract f dec,
          isd.pow_exact 10 (k - l) small,
          isd.mul_checked f (10 ^ (k - l)) (isd.dec_bound fract f dec) small,
        )
        refl

  fraction_long :
      (fract : Bytes) (k : ℕ) (e : FromDecStrErr)
      → k ≤ 18
      → length fract < 2 ^ 64
      → k < length fract
      → fraction x d fract k e ≡ err (from_dec_error e)
  unfolding fraction
  fraction_long fract k e hk hl places =
      let l = length fract in
      let sub = isd.sub_checked k l (omega arith) (omega arith) in
      let places' : leb l k ≡ false = ground arith in rw (sub, places') refl

  with_units-fraction :
      (c : Captures) (cf : Bytes) (k i : ℕ) (e : FromDecStrErr)
      → unit_power (to_lowercase c.units) ≡ some k
      → d.from_dec_str c.integer ≡ inr i
      → c.fract ≡ some cf
      → 1 ≤ length (trim_start_matches cf b'.')
      → with_units x d c e ≡ (
          fraction x d (trim_start_matches cf b'.') k e >>= λ part.
          ok_or
            (elim (checked (i * 10 ^ k)) [ some v ↦ d.checked_add v part | none ↦ none ])
            (other (d.to_string e)))
  unfolding with_units
  with_units-fraction c cf k i e hu hi hf one =
      let small = power_bound k (unit_power_bound (to_lowercase c.units) k hu) in
      let some : (length (trim_start_matches cf b'.') == 0) ≡ false = ground arith in
      rw
        (
          hf,
          hu,
          from_dec-value x d c.integer i hi,
          isd.pow_exact 10 k small,
          isd.mul_checked i (10 ^ k) (isd.dec_bound c.integer i hi) small,
          some,
        )
        refl

  -- What a number with a unit and a fraction gives.
  with_units-value :
      (c : Captures) (cf : Bytes) (k i f : ℕ) (e : FromDecStrErr)
      → unit_power (to_lowercase c.units) ≡ some k
      → d.from_dec_str c.integer ≡ inr i
      → c.fract ≡ some cf
      → d.from_dec_str (trim_start_matches cf b'.') ≡ inr f
      → 1 ≤ length (trim_start_matches cf b'.')
      → length (trim_start_matches cf b'.') < 2 ^ 64
      → Amount k i f (length (trim_start_matches cf b'.')) (with_units x d c e)
  with_units-value c cf k i f e hu hi hf hd one fits =
      let fract = trim_start_matches cf b'.' in
      let l = length fract in
      let hk = unit_power_bound (to_lowercase c.units) k hu in
      let run = with_units-fraction c cf k i e hu hi hf one in
      elim (Bool-cases (leb l k)) [
        | inr p ↦
            let long : k < l = ground arith in
            let no : (leb l k && ltb (i * 10 ^ k + f * 10 ^ (k - l)) (2 ^ 256)) ≡ false =
              rw p refl in
            inr (no, (from_dec_error e, run ∙ (rw (fraction_long fract k e hk fits long) refl)))
        | inl p ↦
            let places : l ≤ k = ground arith in
            let part = fraction-value fract k f e hk fits places hd in
            elim (total d isd (i * 10 ^ k) (f * 10 ^ (k - l)) (other (d.to_string e))
              (fraction x d fract k e) part) [
                | inl t ↦ inl (
                  (rw p t.0),
                  (
                    i * 10 ^ k + f * 10 ^ (k - l),
                    run ∙ t.1,
                    (let small = t.0 in ground arith),
                    scaled i f k l places,
                  ),
                )
                | inr t ↦ inr ((rw p t.0), (other (d.to_string e), run ∙ t.1))
              ]
      ]

-- A number with a unit and a fraction, as "1.5 ether", that is neither a hexadecimal word nor a plain
-- decimal: it gives the token of exactly the amount that is written, scaled by the power of ten of the
-- unit, if the fraction has no more digits than the unit has places and the amount is below 2 ^ 256,
-- and an error otherwise.
pub tokenize_units_value :
    (x : Externs) (d : Decimals) (size : ℕ) (value : Bytes) (e : Error) (u : FromDecStrErr)
    (c : Captures) (cf : Bytes) (k i f : ℕ)
    → IsExterns x
    → IsDecimals d
    → (strict_tokenizer d.hex_decode).tokenize_uint value ≡ err e
    → d.from_dec_str value ≡ inl u
    → d.captures value ≡ some c
    → unit_power (to_lowercase c.units) ≡ some k
    → d.from_dec_str c.integer ≡ inr i
    → c.fract ≡ some cf
    → d.from_dec_str (trim_start_matches cf b'.') ≡ inr f
    → 1 ≤ length (trim_start_matches cf b'.')
    → length (trim_start_matches cf b'.') < 2 ^ 64
    → let l = length (trim_start_matches cf b'.') in
      let fits = leb l k && ltb (i * 10 ^ k + f * 10 ^ (k - l)) (2 ^ 256) in
      ((fits ≡ true)
        × ((v : ℕ) × (tokenize x (lenient_tokenizer x d) (ParamType.uint size) value
              ≡ ok (Token.uint v))
            × (v < 2 ^ 256)
            × (v * 10 ^ l ≡ (i * 10 ^ l + f) * 10 ^ k)))
      ⊎ ((fits ≡ false)
          × ((e : Error) × (tokenize x (lenient_tokenizer x d) (ParamType.uint size) value
                ≡ err e)))
unfolding tokenize lenient_tokenizer
tokenize_units_value x d size value e u c cf k i f isx isd strict dec cap hu hi hf hd one fits =
    let run = tokenize_uint-with_units x d value e u c strict dec cap in
    let token : Bytes → Token = λ w. Token.uint (x.u256_from_word w) in
    elim (with_units-value x d isd c cf k i f u hu hi hf hd one fits) [
      | inl r ↦ inl (
        r.0,
        (
          r.1.0,
          ap (map_ok token) (run ∙ ap (λ r. r >>= λ v. ok (x.u256_to_word v)) r.1.1)
              ∙ ap (λ v. ok (Token.uint v)) (isx.word_roundtrip r.1.0 r.1.2),
          r.1.2,
          r.1.3,
        ),
      )
      | inr r ↦
          inr (
            r.0,
            (r.1.0, ap (map_ok token) (run ∙ ap (λ r. r >>= λ v. ok (x.u256_to_word v)) r.1.1)),
          )
    ]
