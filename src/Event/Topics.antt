-- ===== src/Event/Topics.antt =====
-- The topics that a filter asks for (`convert_token` in ethabi/src/event.rs).
use ethabi.Base.{
  ◌^◌, ◌<◌, ◌≡◌, ◌∙◌, inl, inr, false, not, ◌&&◌, ◌==◌, if◌then◌else◌, [], ◌++◌, Bytes, ok, length,
  append-nil, Bool-cases, arith,
}
use ethabi.Externs.{Externs, IsExterns}
use ethabi.ParamType.{ParamType, ParamTypes}
use ethabi.Token.{Token, nil, cons, is_dynamic}
use ethabi.Token.Typing.{IsToken, HasType}
use ethabi.Token.Checks.{type_check-HasType}
use ethabi.Encoder.Spec.{head_size, heads_size, static_part, head, tail, encoding}
use ethabi.Encoder.Sizes.{head_size-dynamic, length-static_part, tail-static}
use ethabi.Encoder.Refines.{encode-eq-encoding}
use ethabi.RoundTrip.{heads-whole}
use ethabi.Event.{convert_token}

module _ (x : Externs) (ext : IsExterns x) (t : Token) (p : ParamType) (w : IsToken t)
    (h : HasType t p) where
  -- Alone, a static token is encoded as its static part.
  pub encoding-static : is_dynamic t ≡ false → encoding x (cons t nil) ≡ static_part x t
  unfolding encoding head heads_size tail
  encoding-static s =
      rw (s, tail-static x t s) (append-nil (static_part x t ++ []) ∙ append-nil (static_part x t))

  -- One word is encoded where the token is static and has a head of one word.
  one_word : (length (encoding x (cons t nil)) == 32) ≡ (not (is_dynamic t) && (head_size t == 32))
  unfolding head_size is_dynamic
  one_word = elim (Bool-cases (is_dynamic t)) [
    | inl d ↦
        let whole =
          heads-whole x ext (cons t nil) (ParamTypes.cons p ParamTypes.nil) [] (w, tt) (h, tt) in
        rw d (
          not_a_word (encoding x (cons t nil))
            (rw (d, head_size-dynamic t d, append-nil (encoding x (cons t nil))) at whole))
    | inr s ↦ rw (s, encoding-static s, length-static_part x ext t w s)
  ]
    where
      not_a_word : (bs : Bytes) → (32 == length bs) ≡ false → (length bs == 32) ≡ false
      not_a_word bs e = ground arith

-- For a token of the type, encoded in fewer than 2 ^ 32 bytes, `convert_token` returns the static
-- part of a static token that takes one word, and the hash of the whole encoding of any other.
pub convert_token-HasType :
    (x : Externs) (t : Token) (p : ParamType)
    → IsExterns x
    → IsToken t
    → HasType t p
    → length (encoding x (cons t nil)) < 2 ^ 32
    → convert_token x t p
      ≡ ok (
          if not (is_dynamic t) && (head_size t == 32)
          then static_part x t
          else x.keccak256 (encoding x (cons t nil)))
unfolding convert_token
convert_token-HasType x t p ext w h fits =
    rw
      (
        type_check-HasType t p h,
        encode-eq-encoding x ext (cons t nil) (w, tt) fits,
        one_word x ext t p w h,
      )
      (elim (Bool-cases (is_dynamic t)) [
        | inl d ↦ rw d
        | inr s ↦ rw (s, encoding-static x ext t p w h s)
      ])
