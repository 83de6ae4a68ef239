-- ===== src/Encoder/Refines.antt =====
-- What the encoder appends is the specified encoding, and it never panics.
use native.Mathlib.Nat.{zero-add}
use ethabi.Base.{
  ℕ, suc, ◌+◌, ◌^◌, ◌<◌, ◌≡◌, refl, ap, sym, ◌∙◌, true, false, inl, inr, Bool-cases, if◌then◌else◌,
  [], ◌∷◌, ◌++◌, length, flatten, append_assoc, append-nil, Bytes, Result, ok, ◌>>=◌, arith,
  length-append_bytes, replicate,
}
use ethabi.Externs.{Externs, IsExterns}
use ethabi.Word.{pad_u32, u32}
use ethabi.Word.Segments.{padded}
use ethabi.Token.{
  Token, Tokens, address, fixed_bytes, bytes, int, uint, bool, string, fixed_array, array, tuple,
  nil, cons, is_dynamic, any_dynamic, count,
}
use ethabi.Token.Typing.{IsToken, AreTokens}
use ethabi.Encoder.Spec.{heads_size, static_part, static_parts, head, heads, tail, tails, encoding}
use ethabi.Encoder.Sizes.{or-false}
use ethabi.Encoder.FixedBytes.{flatten-push, flatten-fixed_bytes_append}
use ethabi.Encoder.Lengths.{heads_len-mediate, tail_len-mediate, length-block, length-array}
use ethabi.Encoder
use ethabi.Encoder.{
  Words, Mediates, mediate_token, mediate_all, pad_bytes_append, encode_token_append, head_append,
  raw_heads_append, heads_append, head_tail_with, tail_append, tails_append, tail_len, heads_len,
  encode_head_tail, encode,
}

-- The run ends without a panic, and appends words of these bytes to any buffer.
abbrev Appends : (Words → Result Words) → Bytes → Type 0
Appends f bs = (acc : Words) → (out : Words) × (f acc ≡ ok out) × (flatten out ≡ flatten acc ++ bs)

Appends-nothing : Appends (λ acc. ok acc) []
Appends-nothing acc = (acc, refl, sym (append-nil (flatten acc)))

Appends-push : (w : Bytes) → Appends (λ acc. ok (acc ++ (w ∷ []))) w
Appends-push w acc = (acc ++ (w ∷ []), refl, flatten-push acc w)

Appends-fixed : (bs : Bytes) → Appends (λ acc. ok (Encoder.fixed_bytes_append acc bs)) (padded bs)
Appends-fixed bs acc = (_, refl, flatten-fixed_bytes_append acc bs)

Appends-bind :
    (f g : Words → Result Words) (xs bs : Bytes)
    → Appends f xs
    → Appends g bs
    → Appends (λ acc. f acc >>= g) (xs ++ bs)
Appends-bind f g xs bs p q acc =
    let (mid, e, l) = p acc in
    let (out, e', l') = q mid in (out, rw e e', l' ∙ rw l (append_assoc (flatten acc) xs bs))

Appends-padded :
    (bs : Bytes)
    → length bs < 2 ^ 32
    → Appends (λ acc. ok (pad_bytes_append acc bs)) (pad_u32 (length bs) ++ padded bs)
unfolding pad_bytes_append
Appends-padded bs h acc =
    let small : u32 (length bs) ≡ length bs = omega arith in
    (
      _,
      refl,
      rw (flatten-fixed_bytes_append, flatten-push, small)
          (append_assoc (flatten acc) (pad_u32 (length bs)) (padded bs)),
    )

module _ (x : Externs) where
  -- A static token is written whole xs its head.
  mutual
    unfolding head_append mediate_token static_part is_dynamic

    static_append :
        (t : Token) (offset : ℕ)
        → is_dynamic t ≡ false
        → Appends (λ acc. head_append x acc (mediate_token t) offset) (static_part x t)
    static_append (address a) offset s = Appends-push (replicate 12 0 ++ a)
    static_append (fixed_bytes bs) offset s = Appends-fixed bs
    static_append (int v) offset s = Appends-push (x.u256_to_word v)
    static_append (uint v) offset s = Appends-push (x.u256_to_word v)
    static_append (bool b) offset s = Appends-push (replicate 31 0 ++ ((if b then 1 else 0) ∷ []))
    static_append (fixed_array ts) offset s = rw s (static_append_all ts s)
    static_append (tuple ts) offset s = rw s (static_append_all ts s)
    static_append (bytes bs) offset s = cc
    static_append (string bs) offset s = cc
    static_append (array ts) offset s = cc

    static_append_all :
        (ts : Tokens)
        → any_dynamic ts ≡ false
        → Appends (λ acc. raw_heads_append x acc (mediate_all ts)) (static_parts x ts)
    static_append_all nil s = Appends-nothing
    static_append_all (cons t ts) s =
        let (s₁, s₂) = or-false (is_dynamic t) (any_dynamic ts) s in
        Appends-bind _ _ _ _ (static_append t 0 s₁) (static_append_all ts s₂)

  -- A dynamic token's head is the offset of its tail.
  dynamic_append :
      (t : Token) (offset : ℕ)
      → is_dynamic t ≡ true
      → Appends (λ acc. head_append x acc (mediate_token t) offset) (pad_u32 offset)
  unfolding head_append mediate_token is_dynamic
  dynamic_append (bytes bs) offset d = Appends-push (pad_u32 offset)
  dynamic_append (string bs) offset d = Appends-push (pad_u32 offset)
  dynamic_append (array ts) offset d = Appends-push (pad_u32 offset)
  dynamic_append (fixed_array ts) offset d = rw d (Appends-push (pad_u32 offset))
  dynamic_append (tuple ts) offset d = rw d (Appends-push (pad_u32 offset))
  dynamic_append (address a) offset d = cc
  dynamic_append (fixed_bytes a) offset d = cc
  dynamic_append (int a) offset d = cc
  dynamic_append (uint a) offset d = cc
  dynamic_append (bool a) offset d = cc

  head_append-mediate :
      (t : Token) (offset : ℕ)
      → Appends (λ acc. head_append x acc (mediate_token t) offset) (head x t offset)
  unfolding head
  head_append-mediate t offset = elim (Bool-cases (is_dynamic t)) [
    | inl d ↦ rw d (dynamic_append t offset d)
    | inr s ↦ rw s (static_append t offset s)
  ]

module _ (x : Externs) (ext : IsExterns x) where
  heads_append-mediate :
      (ts : Tokens) (offset : ℕ)
      → AreTokens ts
      → offset + length (tails x ts) < 2 ^ 32
      → Appends (λ acc. heads_append x acc (mediate_all ts) offset) (heads x ts offset)
  unfolding heads_append tail mediate_token
  heads_append-mediate nil offset w h = Appends-nothing
  heads_append-mediate (cons t ts) offset w h =
      let both = length-append_bytes (tail x t) (tails x ts) in
      let next : u32 (offset + tail_len (mediate_token t)) ≡ offset + length (tail x t) =
        omega (arith, tail_len-mediate x ext t w.0 (omega arith)) in
      rw next (
        Appends-bind _ _ _ _ (head_append-mediate x t offset)
          (heads_append-mediate ts (offset + length (tail x t)) w.1 (omega arith)))

  count-mediate_all : (ts : Tokens) → Encoder.count (mediate_all ts) ≡ count ts
  unfolding mediate_all
  count-mediate_all nil = refl
  count-mediate_all (cons t ts) = ap suc (count-mediate_all ts)

  -- The heads and the tails, for any way to append the tails.
  block_append :
      (ts : Tokens)
      → AreTokens ts
      → heads_size ts + length (tails x ts) < 2 ^ 32
      → Appends (λ acc. tails_append x acc (mediate_all ts)) (tails x ts)
      → Appends
          (λ acc. head_tail_with x (λ a. tails_append x a (mediate_all ts)) acc (mediate_all ts))
          (heads x ts (heads_size ts) ++ tails x ts)
  unfolding head_tail_with
  block_append ts w h p =
      let start : heads_len 0 (mediate_all ts) ≡ heads_size ts =
        heads_len-mediate ts 0 (omega arith) ∙ zero-add _ in
      rw start (Appends-bind _ _ _ _ (heads_append-mediate ts (heads_size ts) w h) p)

  mutual
    unfolding tail_append mediate_token tail

    tail_append-mediate :
        (t : Token)
        → IsToken t
        → length (tail x t) < 2 ^ 32
        → Appends (λ acc. tail_append x acc (mediate_token t)) (tail x t)
    tail_append-mediate (bytes bs) w h = Appends-padded bs (
        omega
          (arith, length-append_bytes (pad_u32 (length bs)) (padded bs), length-append_bytes bs))
    tail_append-mediate (string bs) w h = Appends-padded bs (
        omega
          (arith, length-append_bytes (pad_u32 (length bs)) (padded bs), length-append_bytes bs))
    tail_append-mediate (array ts) w h =
        let size = length-array x ext ts w.0 in
        let number : u32 (Encoder.count (mediate_all ts)) ≡ count ts =
          omega (arith, count-mediate_all ts, w.1) in
        rw number (
          Appends-bind _ _ _ _ (Appends-push (pad_u32 (count ts)))
            (block_append ts w.0 (omega arith) (tails_append-mediate ts w.0 (omega arith))))
    tail_append-mediate (fixed_array ts) w h = elim (Bool-cases (any_dynamic ts)) [
      | inl d ↦
          let fits : length (heads x ts (heads_size ts) ++ tails x ts) < 2 ^ 32 = rw d at h in
          let size = length-block x ext ts (heads_size ts) w in
          rw d (block_append ts w (omega arith) (tails_append-mediate ts w (omega arith)))
      | inr s ↦ rw s Appends-nothing
    ]
    tail_append-mediate (tuple ts) w h = elim (Bool-cases (any_dynamic ts)) [
      | inl d ↦
          let fits : length (heads x ts (heads_size ts) ++ tails x ts) < 2 ^ 32 = rw d at h in
          let size = length-block x ext ts (heads_size ts) w in
          rw d (block_append ts w (omega arith) (tails_append-mediate ts w (omega arith)))
      | inr s ↦ rw s Appends-nothing
    ]
    tail_append-mediate _ w h = Appends-nothing

    tails_append-mediate :
        (ts : Tokens)
        → AreTokens ts
        → length (tails x ts) < 2 ^ 32
        → Appends (λ acc. tails_append x acc (mediate_all ts)) (tails x ts)
    tails_append-mediate nil w h = Appends-nothing
    tails_append-mediate (cons t ts) w h =
        let both = length-append_bytes (tail x t) (tails x ts) in
        Appends-bind _ _ _ _ (tail_append-mediate t w.0 (omega arith))
          (tails_append-mediate ts w.1 (omega arith))

  -- On tokens whose specified encoding is shorter than 2 ^ 32 bytes, `encode` does not panic and
  -- returns that encoding.
  pub encode-eq-encoding :
      (ts : Tokens)
      → AreTokens ts
      → length (encoding x ts) < 2 ^ 32
      → encode x ts ≡ ok (encoding x ts)
  unfolding encode encoding flatten
  encode-eq-encoding ts w h =
      let size = length-block x ext ts (heads_size ts) w in
      let (out, e, l) =
        block_append ts w (omega arith) (tails_append-mediate ts w (omega arith)) [] in
      rw e (ap ok l)
