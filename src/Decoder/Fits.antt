-- ===== src/Decoder/Fits.antt =====
-- The parts of the decoder (ethabi/src/decoder.rs) that read a frame, on any input.
use ethabi.Base.{
  ℕ, zero, suc, ◌+◌, ◌^◌, ◌<◌, ◌≤◌, ◌≡◌, refl, sym, ◌∙◌, ap, Bool, true, false, not, ltb, length,
  take, Bytes, AreBytes, Result, ok, err, invalid_data, ◌>>=◌, arith, panic, Ensures, holds,
  Ensures-bind, Ensures-weaken, ==_refl,
}
use ethabi.Word.{usize, peek_32_bytes, as_usize}
use ethabi.Word.Safety.{
  Ensures-guard, check_zeroes-Ensures, slice_from-Ensures, peek_32_bytes-Ensures, as_usize-Ensures,
  take_bytes-Ensures,
}
use ethabi.ParamType
use ethabi.ParamType.{
  ParamType, ParamTypes, address, bytes, int, uint, bool, string, array, fixed_bytes, fixed_array,
  tuple, nil, cons,
}
use ethabi.Token
use ethabi.Token.{
  Token, Tokens, push, append, type_check, all_check, fields_check, zip_check, types_check,
  and_then,
}
use ethabi.Token.Dynamic.{append-nil, append-push}
use ethabi.Decoder.{
  DecodeResult, check_address, decode_dynamic_bytes, enter_frame, enter_array, after, decode_times,
}

-- The sizes of `bytesN` in the type are far from the end of a `usize`.
abbrev mutual
  pub IsSmall : ParamType → Type 0
  IsSmall (fixed_bytes n) = n < 2 ^ 62
  IsSmall (array p) = IsSmall p
  IsSmall (fixed_array p n) = IsSmall p
  IsSmall (tuple ps) = AreSmall ps
  IsSmall _ = Unit {0}

  pub AreSmall : ParamTypes → Type 0
  AreSmall nil = Unit {0}
  AreSmall (cons p ps) = IsSmall p × AreSmall ps

pub check_address-Ensures :
    (validate : Bool) (word : Bytes) → Ensures (λ _. Unit {0}) (check_address validate word)
unfolding check_address
check_address-Ensures true word = check_zeroes-Ensures (take 12 word)
check_address-Ensures false word = holds tt

module _ (frame : Bytes) (bytes_ : AreBytes frame) (small : length frame < 2 ^ 62) where
  -- An offset word.
  pub offset-Ensures :
      (pos : ℕ)
      → pos < 2 ^ 63
      → Ensures
          (λ v. (v < 2 ^ 32) × (pos + 32 ≤ length frame))
          (peek_32_bytes frame pos >>= as_usize)
  offset-Ensures pos h =
      Ensures-bind (peek_32_bytes-Ensures frame pos bytes_ h)
        λ word k. Ensures-weaken (as_usize-Ensures word k.1) λ v l. (l, k.2)

  pub decode_dynamic_bytes-Ensures :
      (pos : ℕ) (validate : Bool)
      → pos < 2 ^ 63
      → Ensures (λ _. pos + 32 ≤ length frame) (decode_dynamic_bytes frame pos validate)
  unfolding decode_dynamic_bytes
  decode_dynamic_bytes-Ensures pos validate h =
      Ensures-bind (peek_32_bytes-Ensures frame pos bytes_ h) λ word k.
        Ensures-bind (as_usize-Ensures word k.1) λ offset l.
          Ensures-bind (peek_32_bytes-Ensures frame offset bytes_ (omega arith)) λ word' k'.
            Ensures-bind (as_usize-Ensures word' k'.1) λ len l'.
              Ensures-weaken
                (take_bytes-Ensures frame (usize (offset + 32)) len validate bytes_ (omega arith)
                  (omega arith))
                λ _ _. k.2

  pub enter_frame-Ensures :
      (dynamic : Bool) (pos : ℕ)
      → pos ≤ length frame + 32
      → Ensures
          (λ f.
            AreBytes f.0
            × (length f.0 ≤ length frame)
            × (f.1 ≤ length f.0 + 32)
            × (dynamic ≡ true → pos + 32 ≤ length frame))
          (enter_frame dynamic frame pos)
  unfolding enter_frame
  enter_frame-Ensures false pos h = holds (bytes_, omega arith, h, λ e. absurd (cc))
  enter_frame-Ensures true pos h =
      Ensures-bind (peek_32_bytes-Ensures frame pos bytes_ (omega arith)) λ word k.
        Ensures-bind (as_usize-Ensures word k.1) λ start l.
          Ensures-bind (Ensures-guard (not (ltb (length frame) start)) invalid_data) λ _ g.
            let fits : start ≤ length frame = ground arith in
            Ensures-bind (slice_from-Ensures frame start bytes_ fits)
              λ tail t. holds (t.1, t.0, omega arith, λ _. k.2)

  pub enter_array-Ensures :
      (pos : ℕ)
      → pos ≤ length frame + 32
      → Ensures
          (λ f. AreBytes f.1 × (length f.1 ≤ length frame) × (pos + 32 ≤ length frame))
          (enter_array frame pos)
  unfolding enter_array
  enter_array-Ensures pos h =
      Ensures-bind (peek_32_bytes-Ensures frame pos bytes_ (omega arith)) λ word k.
        Ensures-bind (as_usize-Ensures word k.1) λ offset l.
          Ensures-bind (peek_32_bytes-Ensures frame offset bytes_ (omega arith)) λ word' k'.
            Ensures-bind (as_usize-Ensures word' k'.1) λ len l'.
              Ensures-bind (slice_from-Ensures frame (usize (offset + 32)) bytes_ (omega arith))
                λ tail t. holds (t.1, t.0, k.2)

-- What a loop over one type returns, for tokens read so far.
abbrev pub ManyFit : ParamType → ℕ → ℕ → Tokens → Tokens × ℕ → Type 0
ManyFit p bound n acc r =
    (r.1 ≤ bound)
    × ((us : Tokens) × (r.0 ≡ append acc us) × (Token.count us ≡ n) × (all_check us p ≡ ok true))

abbrev pub FieldsFit : ParamTypes → ℕ → Tokens → Tokens × ℕ → Type 0
FieldsFit ps bound acc r =
    (r.1 ≤ bound)
    × ((us : Tokens) × (r.0 ≡ append acc us)
        × (Token.count us ≡ ParamType.count ps)
        × (fields_check us ps ≡ ok true))

abbrev pub Fits : ParamType → ℕ → DecodeResult → Type 0
Fits p bound r = (r.new_offset ≤ bound) × (type_check r.token p ≡ ok true)

pub decode_times-Ensures :
    (p : ParamType) (bound : ℕ) (f : ℕ → Result DecodeResult)
    → ((o : ℕ) → o ≤ bound → Ensures (Fits p bound) (f o))
    → (n offset : ℕ) (acc : Tokens) → offset ≤ bound
    → Ensures (ManyFit p bound n acc) (decode_times f n offset acc)
unfolding decode_times type_check
decode_times-Ensures p bound f hf zero offset acc h =
    holds (h, (Tokens.nil, sym (append-nil acc), refl, refl))
decode_times-Ensures p bound f hf (suc n) offset acc h = Ensures-bind (hf offset h) λ r k.
    Ensures-weaken (decode_times-Ensures p bound f hf n r.new_offset (push acc r.token) k.0) λ s l.
      (
        l.0,
        (
          Tokens.cons r.token l.1.0,
          l.1.1 ∙ append-push acc r.token l.1.0,
          ap suc l.1.2,
          rw (k.1, l.1.3),
        ),
      )

pub after-le :
    (dynamic : Bool) (pos inner size : ℕ)
    → size < 2 ^ 62
    → (dynamic ≡ true → pos + 32 ≤ size)
    → inner ≤ size + 32
    → after dynamic pos inner ≤ size + 32
after-le true pos inner size s h k = let fits = h refl in omega arith
after-le false pos inner size s h k = k

pub fixed_array-Fits :
    (p : ParamType) (n bound : ℕ) (r : Tokens × ℕ)
    → ManyFit p bound n Tokens.nil r
    → type_check (Token.fixed_array r.0) (fixed_array p n) ≡ ok true
unfolding type_check
fixed_array-Fits p n bound (ts, o) k = ground (arith, k.1.1, k.1.2, k.1.3)

pub and_then-ok : (r s : Result Bool) → and_then r s ≡ ok true → (r ≡ ok true) × (s ≡ ok true)
and_then-ok (ok true) s h = (refl, h)
and_then-ok (ok false) s h = cc
and_then-ok (err e) s h = cc
and_then-ok panic s h = cc

pub zip-fields :
    (ts : Tokens) (ps : ParamTypes) → fields_check ts ps ≡ ok true → zip_check ts ps ≡ ok true
unfolding type_check zip_check
zip-fields Tokens.nil ps h = refl
zip-fields (Tokens.cons t ts) nil h = cc
zip-fields (Tokens.cons t ts) (cons p ps) h =
    let (first, others) = and_then-ok (type_check t p) (fields_check ts ps) h in
    rw (first, zip-fields ts ps others)

pub types_check-fields :
    (ts : Tokens) (ps : ParamTypes)
    → Token.count ts ≡ ParamType.count ps
    → fields_check ts ps ≡ ok true
    → types_check ts ps ≡ ok true
unfolding types_check
types_check-fields ts ps e h = rw (e, ==_refl (ParamType.count ps)) (zip-fields ts ps h)
