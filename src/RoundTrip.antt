-- ===== src/RoundTrip.antt =====
-- `encode` (ethabi/src/encoder.rs) followed by `decode` and `decode_validate`
-- (ethabi/src/decoder.rs).
use native.Mathlib.Nat.{zero-add}
use mathlib.Core.List.{append-nil}
use ethabi.Base.{
  ℕ, ◌+◌, ◌^◌, ◌<◌, ◌≤◌, ◌≡◌, refl, ap, subst, ◌∙◌, Bool, true, false, not, inl, inr, ◌||◌, ◌&&◌,
  ◌==◌, Bool-cases, if◌then◌else◌, [], ◌++◌, length, Bytes, ok, err, ◌>>=◌, ◌>>◌, guard, arith,
  length-append_bytes, invalid_data, map_ok,
}
use ethabi.Externs.{Externs, IsExterns}
use ethabi.Word.{pad_u32}
use ethabi.Word.Laws.{length-pad_u32}
use ethabi.Word.Segments.{Segment, Segment-left, Segment-right, padded}
use ethabi.ParamType
use ethabi.ParamType.{ParamType, ParamTypes, all_empty_valid}
use ethabi.Token.{
  Token, Tokens, address, fixed_bytes, bytes, int, uint, bool, string, fixed_array, array, tuple,
  nil, cons, is_dynamic, any_dynamic,
}
use ethabi.Token.Typing.{IsToken, AreTokens, HasType, HaveTypes}
use ethabi.Token.Dynamic.{count-HaveTypes}
use ethabi.Encoder.Spec.{heads_size, heads, tail, tails, encoding}
use ethabi.Encoder.Sizes.{length-heads, tails-static}
use ethabi.Encoder.Positive.{count-le-heads_size, count-le-heads_sizes}
use ethabi.Encoder.Lengths.{length-block, length-array}
use ethabi.Encoder.Refines.{encode-eq-encoding}
use ethabi.Encoder.{encode}
use ethabi.Decoder.{decode_impl, decode, decode_validate}
use ethabi.Decoder.Reading.{decode_each-Segment}

module _ (x : Externs) (ext : IsExterns x) where
  length-encoding :
      (ts : Tokens) → AreTokens ts → length (encoding x ts) ≡ heads_size ts + length (tails x ts)
  unfolding encoding
  length-encoding ts w = length-block x ext ts (heads_size ts) w

  -- Only the empty list of tokens has an empty encoding, and its types allow that.
  not_empty :
      (ts : Tokens) (ps : ParamTypes) (rest : Bytes)
      → AreTokens ts
      → HaveTypes ts ps
      → (all_empty_valid ps || not (length (encoding x ts ++ rest) == 0)) ≡ true
  not_empty nil ParamTypes.nil rest w h = unfold all_empty_valid in refl
  not_empty (cons t ts) ps rest w h =
      let some_bytes = count-le-heads_sizes (cons t ts) ps h in
      let size = length-encoding (cons t ts) w in
      let both = length-append_bytes (encoding x (cons t ts)) rest in
      or-true (all_empty_valid ps) _ (ground arith)
    where
      or-true : (a b : Bool) → b ≡ true → (a || b) ≡ true
      or-true a b e = ground arith
  not_empty nil (ParamTypes.cons p ps) rest w h = absurd h

  decode_impl-encoding :
      (validate : Bool) (ts : Tokens) (ps : ParamTypes) (rest : Bytes)
      → AreTokens ts
      → HaveTypes ts ps
      → length (encoding x ts ++ rest) < 2 ^ 32
      → decode_impl x ps (encoding x ts ++ rest) validate ≡ (
          guard
            (not (validate && not (heads_size ts == length (encoding x ts ++ rest))))
            invalid_data
          >> ok (ts, heads_size ts))
  unfolding decode_impl
  decode_impl-encoding validate ts ps rest w h fits =
      let frame = encoding x ts ++ rest in
      let size = length-encoding ts w in
      let both = length-append_bytes (encoding x ts) rest in
      let few : ParamType.count ps < 2 ^ 32 =
        omega (arith, count-HaveTypes ts ps h, count-le-heads_sizes ts ps h) in
      let whole : Segment frame 0 (heads x ts (heads_size ts) ++ tails x ts) =
        ([], rest, refl, unfold encoding in refl) in
      let behind : Segment frame (heads_size ts) (tails x ts) =
        subst (λ n. Segment frame n (tails x ts))
          (ap (λ n. 0 + n) (length-heads x ext ts (heads_size ts) w) ∙ zero-add (heads_size ts))
          (Segment-right frame 0 (heads x ts (heads_size ts)) _ whole) in
      rw (
        not_empty ts ps rest w h,
        ext.reserves (ParamType.count ps) few,
        decode_each-Segment x ext validate ts ps frame 0 (heads_size ts) nil fits w h
            (Segment-left frame 0 _ _ whole) behind,
        zero-add (heads_size ts),
      )

  -- Tokens of the given types, whose encoding and the bytes behind it come to less than 2 ^ 32
  -- bytes, are encoded without a panic, and `decode` returns them from the encoding, whatever bytes
  -- follow it.
  pub decode-encode :
      (ts : Tokens) (ps : ParamTypes) (rest : Bytes)
      → AreTokens ts
      → HaveTypes ts ps
      → length (encoding x ts ++ rest) < 2 ^ 32
      → (encode x ts >>= λ bs. decode x ps (bs ++ rest)) ≡ ok ts
  unfolding decode
  decode-encode ts ps rest w h fits =
      let both = length-append_bytes (encoding x ts) rest in
      rw (
        encode-eq-encoding x ext ts w (omega arith),
        decode_impl-encoding false ts ps rest w h fits,
      )

  block_pos :
      (ts : Tokens) (offset : ℕ)
      → AreTokens ts
      → 1 ≤ heads_size ts
      → 1 ≤ length (heads x ts offset ++ tails x ts)
  block_pos ts offset w h = omega (arith, length-block x ext ts offset w)

  -- A dynamic token has a tail.
  tail_pos :
      (t : Token) (p : ParamType)
      → IsToken t
      → HasType t p
      → is_dynamic t ≡ true
      → 1 ≤ length (tail x t)
  unfolding tail is_dynamic
  tail_pos (bytes bs) p w h d =
      omega
        (arith, length-append_bytes (pad_u32 (length bs)) (padded bs), length-pad_u32 (length bs))
  tail_pos (string bs) p w h d =
      omega
        (arith, length-append_bytes (pad_u32 (length bs)) (padded bs), length-pad_u32 (length bs))
  tail_pos (array ts) p w h d = omega (arith, length-array x ext ts w.0)
  tail_pos (fixed_array ts) (ParamType.fixed_array p n) w h d =
      rw d (block_pos ts (heads_size ts) w (omega (arith, count-le-heads_size ts p h.2)))
  tail_pos (tuple ts) (ParamType.tuple ps) w h d =
      rw d (block_pos ts (heads_size ts) w (omega (arith, count-le-heads_sizes ts ps h.1)))
  tail_pos (fixed_array ts) _ w h d = absurd h
  tail_pos (tuple ts) _ w h d = absurd h
  tail_pos (address a) _ w h d = absurd (cc)
  tail_pos (fixed_bytes a) _ w h d = absurd (cc)
  tail_pos (int a) _ w h d = absurd (cc)
  tail_pos (uint a) _ w h d = absurd (cc)
  tail_pos (bool a) _ w h d = absurd (cc)

  tails_pos :
      (ts : Tokens) (ps : ParamTypes)
      → AreTokens ts
      → HaveTypes ts ps
      → any_dynamic ts ≡ true
      → 1 ≤ length (tails x ts)
  unfolding tail is_dynamic
  tails_pos nil ps w h d = absurd (cc)
  tails_pos (cons t ts) ParamTypes.nil w h d = absurd h
  tails_pos (cons t ts) (ParamTypes.cons p ps) w h d =
      let both = length-append_bytes (tail x t) (tails x ts) in
      elim (Bool-cases (is_dynamic t)) [
        | inl here ↦ omega (arith, tail_pos t p w.0 h.0 here)
        | inr later ↦ omega (arith, tails_pos ts ps w.1 h.1 (rw later at d))
      ]

  -- `decode_validate` compares the length of the heads with that of the input.
  pub heads-whole :
      (ts : Tokens) (ps : ParamTypes) (rest : Bytes)
      → AreTokens ts
      → HaveTypes ts ps
      → (heads_size ts == length (encoding x ts ++ rest))
        ≡ not (any_dynamic ts || not (length rest == 0))
  heads-whole ts ps rest w h =
      let size = length-encoding ts w in
      let both = length-append_bytes (encoding x ts) rest in
      elim (Bool-cases (any_dynamic ts)) [
        | inl d ↦ let more = tails_pos ts ps w h d in rw d (ground arith)
        | inr s ↦
            let none : length (tails x ts) ≡ 0 = ap length (tails-static x ts s) in
            rw s (ground arith)
      ]

  -- On the encoding of tokens of the given types with any bytes behind it, together less than
  -- 2 ^ 32 bytes, `decode_validate` returns the tokens if all are static and nothing follows, and
  -- answers `InvalidData` if a token is dynamic or a byte follows.
  pub decode_validate-encode :
      (ts : Tokens) (ps : ParamTypes) (rest : Bytes)
      → AreTokens ts
      → HaveTypes ts ps
      → length (encoding x ts ++ rest) < 2 ^ 32
      → (encode x ts >>= λ bs. decode_validate x ps (bs ++ rest))
        ≡ (if any_dynamic ts || not (length rest == 0) then err invalid_data else ok ts)
  unfolding decode_validate
  decode_validate-encode ts ps rest w h fits =
      let both = length-append_bytes (encoding x ts) rest in
      rw
        (
          encode-eq-encoding x ext ts w (omega arith),
          decode_impl-encoding true ts ps rest w h fits,
          heads-whole ts ps rest w h,
        )
        (by_kind (any_dynamic ts || not (length rest == 0)) ts (heads_size ts))
    where
      by_kind :
          (d : Bool) (ts : Tokens) (n : ℕ)
          → map_ok
              (λ (r : Tokens × ℕ). r.0)
              (guard (not (true && not (not d))) invalid_data >> ok (ts, n))
            ≡ (if d then err invalid_data else ok ts)
      by_kind true ts n = refl
      by_kind false ts n = refl

-- The same with nothing behind the encoding.
pub decode-encoding :
    (x : Externs) (ext : IsExterns x) (ts : Tokens) (ps : ParamTypes)
    → AreTokens ts
    → HaveTypes ts ps
    → length (encoding x ts) < 2 ^ 32
    → decode x ps (encoding x ts) ≡ ok ts
decode-encoding x ext ts ps w h fits =
    let whole : encoding x ts ++ [] ≡ encoding x ts = append-nil (encoding x ts) in
    let trip : (encode x ts >>= λ bs. decode x ps (bs ++ [])) ≡ ok ts =
      decode-encode x ext ts ps [] w h (rw whole fits) in
    rw (encode-eq-encoding x ext ts w fits, whole) at trip
