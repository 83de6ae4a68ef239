-- ===== src/Decoder/Reading.antt =====
-- The decoder reads back what the encoder wrote.
use native.Mathlib.Nat.{add-zero, add_assoc}
use ethabi.Base.{
  ℕ, ◌+◌, ◌*◌, ◌/◌, ◌^◌, ◌<◌, ◌≡◌, refl, sym, ◌∙◌, Bool, if◌then◌else◌, [], ◌∷◌, ◌++◌, length, drop,
  Bytes, ok, arith, length-drop_bytes, replicate,
}
use ethabi.Externs.{Externs, IsExterns}
use ethabi.Utf8.{from_utf8_lossy-is_utf8}
use ethabi.Word.{pad_u32, usize}
use ethabi.Word.Laws.{as_bool-word, length-pad_u32}
use ethabi.Word.Segments.{
  Segment, Segment-left, Segment-right, Segment-le, peek-Segment, padded, length-padded,
  take_bytes-Segment,
}
use ethabi.ParamType
use ethabi.ParamType.{ParamType, ParamTypes}
use ethabi.Token
use ethabi.Token.{
  Token, Tokens, address, fixed_bytes, bytes, int, uint, bool, string, fixed_array, array, tuple,
  nil, cons, count, is_dynamic, any_dynamic, push, append,
}
use ethabi.Token.Typing.{IsToken, AreTokens, HasType, AllHaveType, HaveTypes}
use ethabi.Token.Dynamic.{any_dynamic-AllHaveType, any_dynamic-HaveTypes, append-push, append-nil}
use ethabi.Encoder.Spec.{head_size, heads_size, static_parts, head, heads, tail, tails}
use ethabi.Encoder.Sizes.{length-heads}
use ethabi.Encoder.Positive.{count-le-heads_size}
use ethabi.Decoder.{decode_param, decode_times, decode_each}
use ethabi.Decoder.Parts.{
  check_address-padded, word_end, decode_dynamic_bytes-Segment, enter_array-Segment, Segment-enter,
  behind_number,
}
use ethabi.Decoder.Blocks.{length-address_word, next_head, block_read, heads_size-le}

module _ (x : Externs) (ext : IsExterns x) (validate : Bool) where
  mutual
    unfolding decode_param decode_times tail head_size Token.is_dynamic

    -- A token of a type is read where its head and its tail stand.
    pub decode_param-Segment :
        (t : Token) (p : ParamType) (frame : Bytes) (pos offset : ℕ)
        → length frame < 2 ^ 32
        → IsToken t
        → HasType t p
        → Segment frame pos (head x t offset)
        → Segment frame offset (tail x t)
        → decode_param x p frame pos validate
          ≡ ok (record { token = t; new_offset = pos + head_size t })
    decode_param-Segment (address a) ParamType.address frame pos offset small w h s r =
        let word : Bytes = replicate 12 0 ++ a in
        let size = length-address_word x ext a w in
        rw (
          peek-Segment frame pos word (omega arith) size s,
          check_address-padded,
          word_end frame pos word small size s,
        )
    decode_param-Segment (int v) (ParamType.int n) frame pos offset small w h s r =
        let word = x.u256_to_word v in
        let size = ext.length_word v in
        rw (
          peek-Segment frame pos word (omega arith) size s,
          ext.word_roundtrip v w,
          word_end frame pos word small size s,
        )
    decode_param-Segment (uint v) (ParamType.uint n) frame pos offset small w h s r =
        let word = x.u256_to_word v in
        let size = ext.length_word v in
        rw (
          peek-Segment frame pos word (omega arith) size s,
          ext.word_roundtrip v w,
          word_end frame pos word small size s,
        )
    decode_param-Segment (bool b) ParamType.bool frame pos offset small w h s r =
        let word : Bytes = replicate 31 0 ++ ((if b then 1 else 0) ∷ []) in
        rw (
          peek-Segment frame pos word (omega arith) refl s,
          as_bool-word b,
          word_end frame pos word small refl s,
        )
    decode_param-Segment (fixed_bytes bs) (ParamType.fixed_bytes n) frame pos offset small w h s r =
        let fits = Segment-le frame pos (padded bs) s in
        let end : usize (pos + 32) ≡ pos + (length bs + 31) / 32 * 32 =
          omega (arith, length-padded bs) in
        rw (← h.0, take_bytes-Segment frame pos bs validate (omega arith) s, end)
    decode_param-Segment (bytes bs) ParamType.bytes frame pos offset small w h s r = rw (
      decode_dynamic_bytes-Segment frame pos offset bs validate small s r,
      word_end frame pos (pad_u32 offset) small (length-pad_u32 offset) s,
    )
    decode_param-Segment (string bs) ParamType.string frame pos offset small w h s r = rw (
      decode_dynamic_bytes-Segment frame pos offset bs validate small s r,
      from_utf8_lossy-is_utf8 bs w,
      word_end frame pos (pad_u32 offset) small (length-pad_u32 offset) s,
    )
    decode_param-Segment (array ts) (ParamType.array p) frame pos offset small w h s r =
        let (front, back) =
          Segment-enter frame (offset + 32) (heads x ts (heads_size ts)) (tails x ts)
            (behind_number frame offset (count ts) _ r) in
        let behind : Segment (drop (offset + 32) frame) (heads_size ts) (tails x ts) =
          rw (length-heads x ext ts (heads_size ts) w.0) at back in
        rw (
          enter_array-Segment frame pos offset (count ts) (heads x ts (heads_size ts) ++ tails x ts)
              small w.1 s r,
          ext.reserves (count ts) w.1,
          decode_times-Segment ts p (drop (offset + 32) frame) 0 (heads_size ts) nil
              (omega (arith, length-drop_bytes (offset + 32) frame)) w.0 h front behind,
          word_end frame pos (pad_u32 offset) small (length-pad_u32 offset) s,
        )
    decode_param-Segment (fixed_array ts) (ParamType.fixed_array p n) frame pos offset small w h s
          r =
        let d = any_dynamic-AllHaveType ts p (omega arith) h.2 in
        let head_in : Segment frame pos
            (if ParamType.is_dynamic p then pad_u32 offset else static_parts x ts) =
          rw d at s in
        let tail_in : Segment frame offset
            (if ParamType.is_dynamic p then heads x ts (heads_size ts) ++ tails x ts else []) =
          rw d at r in
        let size =
          heads_size-le x ext ts (ParamType.is_dynamic p) frame pos offset w d head_in tail_in in
        rw (← h.0, ext.reserves (count ts) (omega (arith, count-le-heads_size ts p h.2)), d)
          (block_read x ext ts Token.fixed_array
            (λ f o. decode_times (λ q. decode_param x p f q validate) (count ts) o nil)
            (ParamType.is_dynamic p) frame pos offset small w d
            (λ f o k fits a b. decode_times-Segment ts p f o k nil fits w h.2 a b) head_in tail_in)
    decode_param-Segment (tuple ts) (ParamType.tuple ps) frame pos offset small w h s r =
        let d = any_dynamic-HaveTypes ts ps h.1 in
        rw d (
          block_read x ext ts Token.tuple (λ f o. decode_each x ps f o validate nil)
            (ParamType.any_dynamic ps) frame pos offset small w d
            (λ f o k fits a b. decode_each-Segment ts ps f o k nil fits w h.1 a b) (rw d at s)
            (rw d at r))
    decode_param-Segment _ _ frame pos offset small w h s r = absurd h

    pub decode_times-Segment :
        (ts : Tokens) (p : ParamType) (frame : Bytes) (pos offset : ℕ) (acc : Tokens)
        → length frame < 2 ^ 32
        → AreTokens ts
        → AllHaveType ts p
        → Segment frame pos (heads x ts offset)
        → Segment frame offset (tails x ts)
        → decode_times (λ o. decode_param x p frame o validate) (count ts) pos acc
          ≡ ok (append acc ts, pos + heads_size ts)
    decode_times-Segment nil p frame pos offset acc small w h s r =
        rw append-nil (cc (sym (add-zero pos)))
    decode_times-Segment (cons t ts) p frame pos offset acc small w h s r =
        rw
          (decode_param-Segment t p frame pos offset small w.0 h.0 (Segment-left frame pos _ _ s)
            (Segment-left frame offset _ _ r))
          (decode_times-Segment ts p frame (pos + head_size t) (offset + length (tail x t))
              (push acc t) small w.1 h.1 (next_head x ext t ts frame pos offset w.0 s)
              (Segment-right frame offset (tail x t) (tails x ts) r)
            ∙ cc (append-push acc t ts, add_assoc pos (head_size t) (heads_size ts)))

    pub decode_each-Segment :
        (ts : Tokens) (ps : ParamTypes) (frame : Bytes) (pos offset : ℕ) (acc : Tokens)
        → length frame < 2 ^ 32
        → AreTokens ts
        → HaveTypes ts ps
        → Segment frame pos (heads x ts offset)
        → Segment frame offset (tails x ts)
        → decode_each x ps frame pos validate acc ≡ ok (append acc ts, pos + heads_size ts)
    decode_each-Segment nil ParamTypes.nil frame pos offset acc small w h s r =
        rw append-nil (cc (sym (add-zero pos)))
    decode_each-Segment (cons t ts) (ParamTypes.cons p ps) frame pos offset acc small w h s r =
        rw
          (decode_param-Segment t p frame pos offset small w.0 h.0 (Segment-left frame pos _ _ s)
            (Segment-left frame offset _ _ r))
          (decode_each-Segment ts ps frame (pos + head_size t) (offset + length (tail x t))
              (push acc t) small w.1 h.1 (next_head x ext t ts frame pos offset w.0 s)
              (Segment-right frame offset (tail x t) (tails x ts) r)
            ∙ cc (append-push acc t ts, add_assoc pos (head_size t) (heads_size ts)))
    decode_each-Segment _ _ frame pos offset acc small w h s r = absurd h
