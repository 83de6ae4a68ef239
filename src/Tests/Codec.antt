-- ===== src/Tests/Codec.antt =====
-- Runs of the encoder and the decoder.
use ethabi.Base.{
  ◌↔◌, ℕ, ◌≡◌, refl, true, ◌||◌, not, ◌==◌, if◌then◌else◌, [], ◌∷◌, ◌++◌, length, replicate, ok,
  err, panic, flatten, invalid_data, ◌>>=◌, arith, Ensures,
}
use ethabi.Word.{pad_u32, peek_32_bytes, as_bool, take_bytes}
use ethabi.Utf8.{from_utf8_lossy}
use ethabi.ParamType
use ethabi.ParamType.{ParamType, ParamTypes}
use ethabi.Token
use ethabi.Token.{Token, Tokens, types_check, any_dynamic, type_check, count}
use ethabi.Token.Checks.{type_check-tuple_length}
use ethabi.Token.Accepted.{EachAccepted, types_check-EachAccepted}
use ethabi.Encoder.{encode, pad_bytes_len}
use ethabi.Encoder.Spec.{encoding}
use ethabi.Encoder.Refines.{encode-eq-encoding}
use ethabi.Decoder.{decode, decode_validate, decode_times, enter_array, decode_dynamic_bytes}
use ethabi.Decoder.Safety.{decode-Ensures}
use ethabi.RoundTrip.{decode-encode, decode_validate-encode}
use ethabi.Tests.Samples.{
  externs, externs-IsExterns, tokens, types, static_tokens, static_types, tokens-AreTokens,
  tokens-HaveTypes, static_tokens-HaveTypes,
}

sample_encoding :
    encode externs tokens
    ≡ ok (
        pad_u32 69
        ++ (pad_u32 96
            ++ (pad_u32 160
                ++ (pad_u32 2
                    ++ ((0x68 ∷ 0x69 ∷ replicate 30 0)
                        ++ (pad_u32 2 ++ (pad_u32 1 ++ pad_u32 0)))))))
unfolding encode pad_u32 flatten pad_bytes_len
sample_encoding = refl

sample_decoding : (encode externs tokens >>= decode externs types) ≡ ok tokens
unfolding encode decode from_utf8_lossy ParamType.all_empty_valid flatten pad_u32 pad_bytes_len
    decode_dynamic_bytes enter_array decode_times as_bool
sample_decoding = refl

-- An incomplete character is replaced.
lossy :
    from_utf8_lossy (0x61 ∷ 0xe2 ∷ 0x82 ∷ 0x62 ∷ 0xff ∷ [])
    ≡ 0x61 ∷ 0xef ∷ 0xbf ∷ 0xbd ∷ 0x62 ∷ 0xef ∷ 0xbf ∷ 0xbd ∷ []
unfolding from_utf8_lossy
lossy = refl

-- `bytes0` is written as nothing, and read over a whole word.
empty_fixed_bytes :
    (encode externs (
        Token.Tokens.cons
          (Token.fixed_bytes [])
          (Token.Tokens.cons (Token.uint 5) Token.Tokens.nil))
      >>= decode externs (
          ParamTypes.cons
            (ParamType.fixed_bytes 0)
            (ParamTypes.cons (ParamType.uint 256) ParamTypes.nil)))
    ≡ err invalid_data
unfolding encode decode ParamType.all_empty_valid flatten take_bytes peek_32_bytes
empty_fixed_bytes = refl

encode-eq-encoding_example : encode externs tokens ≡ ok (encoding externs tokens)
encode-eq-encoding_example =
    encode-eq-encoding externs externs-IsExterns tokens tokens-AreTokens
      (unfold encoding pad_u32 in omega arith)

decode-encode_example :
    (encode externs tokens >>= λ bs. decode externs types (bs ++ (9 ∷ []))) ≡ ok tokens
decode-encode_example =
    decode-encode externs externs-IsExterns tokens types (9 ∷ []) tokens-AreTokens tokens-HaveTypes
      (unfold encoding pad_u32 in omega arith)

decode_validate-encode_example :
    (encode externs static_tokens >>= λ bs. decode_validate externs static_types (bs ++ [])) ≡ (
      if any_dynamic static_tokens || not (length {A = ℕ} [] == 0)
      then err invalid_data
      else ok static_tokens)
decode_validate-encode_example =
    decode_validate-encode externs externs-IsExterns static_tokens static_types []
      ((tt, (tt, tt)), tt) static_tokens-HaveTypes (unfold encoding pad_u32 in omega arith)

decode-Ensures_example :
    Ensures (λ ts. types_check ts types ≡ ok true) (decode externs types (1 ∷ 2 ∷ []))
    × Ensures (λ ts. types_check ts types ≡ ok true) (decode_validate externs types (1 ∷ 2 ∷ []))
decode-Ensures_example =
    decode-Ensures externs types (1 ∷ 2 ∷ []) (omega arith) (omega arith) (tt, (tt, (tt, tt)))

types_check-EachAccepted_example : (types_check tokens types ≡ ok true) ↔ EachAccepted tokens types
types_check-EachAccepted_example = types_check-EachAccepted tokens types

type_check-tuple_length_example :
    (type_check (Token.tuple tokens) (ParamType.tuple (ParamType.append types static_types))
      ≡ ok true)
    × (type_check
          (Token.tuple
            (Token.append tokens (Token.Tokens.cons (Token.Token.bool true) Token.Tokens.nil)))
          (ParamType.tuple types)
        ≡ panic)
type_check-tuple_length_example =
    type_check-tuple_length tokens Token.Tokens.nil (Token.Token.bool true) types static_types
      tokens-HaveTypes
