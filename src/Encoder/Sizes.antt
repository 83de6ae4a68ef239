-- ===== src/Encoder/Sizes.antt =====
-- The sizes of heads and tails of the specified encoding.
use ethabi.Base.{
  ℕ, ◌+◌, ◌≡◌, refl, Bool, true, false, ◌||◌, inl, inr, Bool-cases, [], length, arith, lengths,
  length-append_bytes,
}
use ethabi.Externs.{Externs, IsExterns}
use ethabi.Word.Laws.{length-pad_u32}
use ethabi.Word.Segments.{length-padded}
use ethabi.Token.{
  Token, Tokens, address, fixed_bytes, bytes, int, uint, bool, string, fixed_array, array, tuple,
  nil, cons, is_dynamic, any_dynamic,
}
use ethabi.Token.Typing.{IsToken, AreTokens}
use ethabi.Encoder.Spec.{head_size, heads_size, static_part, static_parts, head, heads, tail, tails}

pub or-false : (a b : Bool) → (a || b) ≡ false → (a ≡ false) × (b ≡ false)
or-false a b h = ground arith

-- A dynamic token's head is one word.
pub head_size-dynamic : (t : Token) → is_dynamic t ≡ true → head_size t ≡ 32
unfolding head_size
head_size-dynamic (fixed_array ts) h = rw h
head_size-dynamic (tuple ts) h = rw h
head_size-dynamic (fixed_bytes bs) h = cc
head_size-dynamic _ h = refl

module _ (x : Externs) (ext : IsExterns x) where
  mutual
    unfolding static_part head_size

    pub length-static_part :
        (t : Token) → IsToken t → is_dynamic t ≡ false → length (static_part x t) ≡ head_size t
    length-static_part (address a) w s = omega lengths
    length-static_part (fixed_bytes bs) w s = length-padded bs
    length-static_part (bytes bs) w s = cc
    length-static_part (string bs) w s = cc
    length-static_part (array ts) w s = cc
    length-static_part (int v) w s = ext.length_word v
    length-static_part (uint v) w s = ext.length_word v
    length-static_part (bool b) w s = refl
    length-static_part (fixed_array ts) w s = rw s (length-static_parts ts w s)
    length-static_part (tuple ts) w s = rw s (length-static_parts ts w s)

    length-static_parts :
        (ts : Tokens)
        → AreTokens ts
        → any_dynamic ts ≡ false
        → length (static_parts x ts) ≡ heads_size ts
    length-static_parts nil w s = refl
    length-static_parts (cons t ts) w s =
        let (s₁, s₂) = or-false (is_dynamic t) (any_dynamic ts) s in
        omega (
          lengths,
          length-append_bytes (static_part x t) (static_parts x ts),
          length-static_part t w.0 s₁,
          length-static_parts ts w.1 s₂,
        )

  pub length-head : (t : Token) (offset : ℕ) → IsToken t → length (head x t offset) ≡ head_size t
  unfolding head
  length-head t offset w = elim (Bool-cases (is_dynamic t)) [
    | inl d ↦ rw (d, head_size-dynamic t d) (length-pad_u32 offset)
    | inr s ↦ rw s (length-static_part t w s)
  ]

  pub length-heads :
      (ts : Tokens) (offset : ℕ) → AreTokens ts → length (heads x ts offset) ≡ heads_size ts
  unfolding tail
  length-heads nil offset w = refl
  length-heads (cons t ts) offset w =
      let next = offset + length (tail x t) in
      omega (
        arith,
        length-append_bytes (head x t offset) (heads x ts next),
        length-head t offset w.0,
        length-heads ts next w.1,
      )

module _ (x : Externs) where
  pub tail-static : (t : Token) → is_dynamic t ≡ false → tail x t ≡ []
  unfolding tail is_dynamic
  tail-static (bytes bs) s = cc
  tail-static (string bs) s = cc
  tail-static (array ts) s = cc
  tail-static (fixed_array ts) s = rw s
  tail-static (tuple ts) s = rw s
  tail-static _ s = refl

  pub tails-static : (ts : Tokens) → any_dynamic ts ≡ false → tails x ts ≡ []
  unfolding tail is_dynamic
  tails-static nil s = refl
  tails-static (cons t ts) s =
      let (s₁, s₂) = or-false _ _ s in rw (tail-static t s₁) (tails-static ts s₂)
