-- ===== src/Decoder/Blocks.antt =====
-- How the decoder reads the heads and tails of a list of tokens, in a frame of its own or in place.
use ethabi.Base.{
  ℕ, ◌+◌, ◌^◌, ◌<◌, ◌≤◌, ◌≡◌, refl, subst, Bool, true, false, if◌then◌else◌, [], ◌++◌, length, drop,
  Bytes, Result, ok, ◌>>=◌, arith, length-drop_bytes, length-append_bytes, replicate,
}
use ethabi.Externs.{Externs, IsExterns}
use ethabi.Word.{pad_u32}
use ethabi.Word.Laws.{length-pad_u32}
use ethabi.Word.Segments.{Segment, Segment-left, Segment-right, Segment-le}
use ethabi.Token.{Token, Tokens, nil, cons, is_dynamic, any_dynamic}
use ethabi.Token.Typing.{IsToken, AreTokens}
use ethabi.Encoder.Spec.{head_size, heads_size, static_part, static_parts, head, heads, tail, tails}
use ethabi.Encoder.Sizes.{length-head, length-heads, tails-static, or-false}
use ethabi.Decoder.{DecodeResult, enter_frame, after}
use ethabi.Decoder.Parts.{word_end, enter_frame-Segment, Segment-enter}

-- The heads of static tokens are their encodings, one after the other.
heads-static :
    (x : Externs) (ts : Tokens) (offset : ℕ)
    → any_dynamic ts ≡ false
    → heads x ts offset ≡ static_parts x ts
unfolding tail static_part is_dynamic
heads-static x nil offset s = refl
heads-static x (cons t ts) offset s =
    let (s₁, s₂) = or-false (is_dynamic t) (any_dynamic ts) s in
    rw (s₁, heads-static x ts (offset + length (tail x t)) s₂)

module _ (x : Externs) (ext : IsExterns x) where
  pub length-address_word : (a : Bytes) → length a ≡ 20 → length (replicate 12 0 ++ a) ≡ 32
  length-address_word a h = omega (arith, length-append_bytes (replicate 12 0) a)

  -- The parts of a list, behind the first.
  pub next_head :
      (t : Token) (ts : Tokens) (frame : Bytes) (pos offset : ℕ)
      → IsToken t
      → Segment frame pos (heads x (cons t ts) offset)
      → Segment frame (pos + head_size t) (heads x ts (offset + length (tail x t)))
  unfolding tail
  next_head t ts frame pos offset w s =
      subst (λ n. Segment frame (pos + n) (heads x ts (offset + length (tail x t))))
        (length-head x ext t offset w) (Segment-right frame pos (head x t offset) _ s)

  -- A block in a frame of its own, or in place.
  abbrev pub ReadsBlock : Tokens → (Bytes → ℕ → Result (Tokens × ℕ)) → Type 0
  ReadsBlock ts loop =
      (frame : Bytes) (pos offset : ℕ)
      → length frame < 2 ^ 32
      → Segment frame pos (heads x ts offset)
      → Segment frame offset (tails x ts)
      → loop frame pos ≡ ok (ts, pos + heads_size ts)

  -- What follows the loop of a fixed array or tuple.
  abbrev pub wrap_up : (Tokens → Token) → Bool → ℕ → Tokens × ℕ → Result DecodeResult
  wrap_up wrap dynamic pos r = ok (record { token = wrap r.0; new_offset = after dynamic pos r.1 })

  pub block_read :
      (ts : Tokens) (wrap : Tokens → Token) (loop : Bytes → ℕ → Result (Tokens × ℕ))
      (dynamic : Bool) (frame : Bytes) (pos offset : ℕ)
      → length frame < 2 ^ 32
      → AreTokens ts
      → any_dynamic ts ≡ dynamic
      → ReadsBlock ts loop
      → Segment frame pos (if dynamic then pad_u32 offset else static_parts x ts)
      → Segment frame offset (if dynamic then heads x ts (heads_size ts) ++ tails x ts else [])
      → (enter_frame dynamic frame pos >>= λ f. loop f.0 f.1 >>= wrap_up wrap dynamic pos)
        ≡ ok
            (record { token = wrap ts; new_offset = pos + (if dynamic then 32 else heads_size ts) })
  block_read ts wrap loop true frame pos offset small w d reads s r =
      let (front, back) = Segment-enter frame offset (heads x ts (heads_size ts)) (tails x ts) r in
      let behind : Segment (drop offset frame) (heads_size ts) (tails x ts) =
        rw (length-heads x ext ts (heads_size ts) w) at back in
      rw (
        enter_frame-Segment frame pos offset _ small s r,
        reads (drop offset frame) 0 (heads_size ts) (omega (arith, length-drop_bytes offset frame))
            front behind,
        word_end frame pos (pad_u32 offset) small (length-pad_u32 offset) s,
      )
  block_read ts wrap loop false frame pos offset small w d reads s r =
      let here : Segment frame pos (heads x ts offset) = rw (heads-static x ts offset d) s in
      let none : Segment frame offset (tails x ts) = rw (tails-static x ts d) r in
      unfold enter_frame in rw (reads frame pos offset small here none)

  -- The heads of a block fit its frame.
  pub heads_size-le :
      (ts : Tokens) (dynamic : Bool) (frame : Bytes) (pos offset : ℕ)
      → AreTokens ts
      → any_dynamic ts ≡ dynamic
      → Segment frame pos (if dynamic then pad_u32 offset else static_parts x ts)
      → Segment frame offset (if dynamic then heads x ts (heads_size ts) ++ tails x ts else [])
      → heads_size ts ≤ length frame
  heads_size-le ts true frame pos offset w d s r =
      let front = Segment-left frame offset (heads x ts (heads_size ts)) (tails x ts) r in
      let fits = Segment-le frame offset (heads x ts (heads_size ts)) front in
      omega (arith, length-heads x ext ts (heads_size ts) w)
  heads_size-le ts false frame pos offset w d s r =
      let here : Segment frame pos (heads x ts offset) = rw (heads-static x ts offset d) s in
      let fits = Segment-le frame pos (heads x ts offset) here in
      omega (arith, length-heads x ext ts offset w)
