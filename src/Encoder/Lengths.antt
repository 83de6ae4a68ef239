-- ===== src/Encoder/Lengths.antt =====
-- The lengths that the encoder computes in 32 bits are those of the specified encoding.
use ethabi.Base.{
  ℕ, ◌+◌, ◌*◌, ◌/◌, ◌^◌, ◌<◌, ◌≡◌, refl, sym, ◌∙◌, inl, inr, Bool-cases, ◌++◌, length, Bytes, arith,
  lengths, length-append_bytes,
}
use native.Mathlib.Nat.{zero-add}
use ethabi.Externs.{Externs, IsExterns}
use ethabi.Word.{pad_u32, u32}
use ethabi.Word.Laws.{length-pad_u32}
use ethabi.Word.Segments.{padded, length-padded}
use ethabi.Token.{
  Token, Tokens, fixed_bytes, bytes, string, fixed_array, array, tuple, nil, cons, any_dynamic,
  count,
}
use ethabi.Token.Typing.{IsToken, AreTokens}
use ethabi.Encoder.Spec.{head_size, heads_size, heads, tail, tails}
use ethabi.Encoder.Sizes.{length-heads}
use ethabi.Encoder.{
  head_len, heads_len, tail_len, parts_len, mediate_token, mediate_all, pad_bytes_len,
  fixed_bytes_len,
}

fixed_bytes_head :
    (bs : Bytes)
    → (length bs + 31) / 32 * 32 < 2 ^ 32
    → u32 (32 * fixed_bytes_len bs) ≡ (length bs + 31) / 32 * 32
unfolding fixed_bytes_len
fixed_bytes_head bs h = omega arith

mutual
  unfolding head_len mediate_token head_size

  pub head_len-mediate :
      (t : Token) → head_size t < 2 ^ 32 → head_len (mediate_token t) ≡ head_size t
  head_len-mediate (fixed_bytes bs) h = fixed_bytes_head bs h
  head_len-mediate (fixed_array ts) h = elim (Bool-cases (any_dynamic ts)) [
    | inl d ↦ rw d
    | inr s ↦
        let fits : heads_size ts < 2 ^ 32 = rw s at h in
        rw s (heads_len-mediate ts 0 (omega arith) ∙ zero-add (heads_size ts))
  ]
  head_len-mediate (tuple ts) h = elim (Bool-cases (any_dynamic ts)) [
    | inl d ↦ rw d
    | inr s ↦
        let fits : heads_size ts < 2 ^ 32 = rw s at h in
        rw s (heads_len-mediate ts 0 (omega arith) ∙ zero-add (heads_size ts))
  ]
  head_len-mediate _ h = refl

  pub heads_len-mediate :
      (ts : Tokens) (acc : ℕ)
      → acc + heads_size ts < 2 ^ 32
      → heads_len acc (mediate_all ts) ≡ acc + heads_size ts
  heads_len-mediate nil acc h = omega arith
  heads_len-mediate (cons t ts) acc h =
      let here : head_len (mediate_token t) ≡ head_size t = head_len-mediate t (omega arith) in
      let sum : u32 (acc + head_len (mediate_token t)) ≡ acc + head_size t = omega arith in
      rw sum (omega (arith, heads_len-mediate ts (acc + head_size t) (omega arith)))

prefixed_tail :
    (bs : Bytes)
    → length (pad_u32 (length bs) ++ padded bs) < 2 ^ 32
    → u32 (32 * pad_bytes_len bs) ≡ length (pad_u32 (length bs) ++ padded bs)
unfolding pad_bytes_len
prefixed_tail bs h =
    let size : length (pad_u32 (length bs) ++ padded bs) ≡ 32 + (length bs + 31) / 32 * 32 = omega (
      lengths,
      length-padded bs,
      length-pad_u32 (length bs),
      length-append_bytes (pad_u32 (length bs)) (padded bs),
    ) in
    omega arith

module _ (x : Externs) (ext : IsExterns x) where
  -- The heads and the tails together.
  pub length-block :
      (ts : Tokens) (offset : ℕ)
      → AreTokens ts
      → length (heads x ts offset ++ tails x ts) ≡ heads_size ts + length (tails x ts)
  length-block ts offset w =
      omega (
        arith,
        length-append_bytes (heads x ts offset) (tails x ts),
        length-heads x ext ts offset w,
      )

  -- The tail of a dynamic array.
  pub length-array :
      (ts : Tokens)
      → AreTokens ts
      → length (tail x (array ts)) ≡ 32 + (heads_size ts + length (tails x ts))
  unfolding tail
  length-array ts w = omega (
    arith,
    length-append_bytes (pad_u32 (count ts)) (heads x ts (heads_size ts) ++ tails x ts),
    length-pad_u32 (count ts),
    length-block ts (heads_size ts) w,
  )

  mutual
    unfolding tail_len mediate_token tail

    pub tail_len-mediate :
        (t : Token)
        → IsToken t
        → length (tail x t) < 2 ^ 32
        → tail_len (mediate_token t) ≡ length (tail x t)
    tail_len-mediate (bytes bs) w h = prefixed_tail bs h
    tail_len-mediate (string bs) w h = prefixed_tail bs h
    tail_len-mediate (array ts) w h =
        let size = length-array ts w.0 in parts_len-mediate ts 32 w.0 (omega arith) ∙ sym size
    tail_len-mediate (fixed_array ts) w h = elim (Bool-cases (any_dynamic ts)) [
      | inl d ↦
          let fits : length (heads x ts (heads_size ts) ++ tails x ts) < 2 ^ 32 = rw d at h in
          let size = length-block ts (heads_size ts) w in
          rw d (parts_len-mediate ts 0 w (omega arith) ∙ zero-add _ ∙ sym size)
      | inr s ↦ rw s
    ]
    tail_len-mediate (tuple ts) w h = elim (Bool-cases (any_dynamic ts)) [
      | inl d ↦
          let fits : length (heads x ts (heads_size ts) ++ tails x ts) < 2 ^ 32 = rw d at h in
          let size = length-block ts (heads_size ts) w in
          rw d (parts_len-mediate ts 0 w (omega arith) ∙ zero-add _ ∙ sym size)
      | inr s ↦ rw s
    ]
    tail_len-mediate _ w h = refl

    pub parts_len-mediate :
        (ts : Tokens) (acc : ℕ)
        → AreTokens ts
        → acc + (heads_size ts + length (tails x ts)) < 2 ^ 32
        → parts_len acc (mediate_all ts) ≡ acc + (heads_size ts + length (tails x ts))
    parts_len-mediate nil acc w h = omega arith
    parts_len-mediate (cons t ts) acc w h =
        let both = length-append_bytes (tail x t) (tails x ts) in
        let head : head_len (mediate_token t) ≡ head_size t = head_len-mediate t (omega arith) in
        let tail_ : tail_len (mediate_token t) ≡ length (tail x t) =
          tail_len-mediate t w.0 (omega arith) in
        let sum : u32 (u32 (acc + head_len (mediate_token t)) + tail_len (mediate_token t))
            ≡ acc + (head_size t + length (tail x t)) =
          omega arith in
        let rest =
          parts_len-mediate ts (acc + (head_size t + length (tail x t))) w.1 (omega arith) in
        rw sum (omega arith)
