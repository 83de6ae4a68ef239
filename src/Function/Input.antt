-- ===== src/Function/Input.antt =====
-- The bytes of a function's call, and reading them back.
use ethabi.Base.{◌^◌, ◌<◌, ◌≡◌, subst, length, take, drop, Bytes, ok, ◌>>=◌}
use ethabi.Externs.{Externs, IsExterns}
use ethabi.Token.{Tokens}
use ethabi.Token.Typing.{AreTokens, HaveTypes}
use ethabi.Encoder.Spec.{encoding}
use ethabi.Decoder.{decode}
use ethabi.Calls.{checked_call, decode-checked_call, take-checked_call}
use ethabi.Signature
use ethabi.Signature.{length-short_signature}
use ethabi.Function.{Function, input_param_types, encode_input, decode_input, short_signature}

-- A call that was built for tokens of the input types, with an encoding shorter than 2 ^ 32 bytes,
-- is read back by `decode_input` from behind its four bytes of selector.
pub decode_input-encode_input :
    (x : Externs) (f : Function) (ts : Tokens)
    → IsExterns x
    → AreTokens ts
    → HaveTypes ts (input_param_types f)
    → length (encoding x ts) < 2 ^ 32
    → (encode_input x f ts >>= λ call. decode_input x f (drop 4 call)) ≡ ok ts
unfolding encode_input decode_input
decode_input-encode_input x f ts ext w h fits =
    let signed = Signature.short_signature x f.name (input_param_types f) in
    subst
      (λ n.
        (checked_call x (input_param_types f) ts signed >>= λ call.
        decode x (input_param_types f) (drop n call))
        ≡ ok ts)
      (length-short_signature x ext f.name (input_param_types f))
      (decode-checked_call x ext ts (input_param_types f) w h fits signed)

-- Whatever the tokens, a call that `encode_input` returns begins with the function's selector.
pub take-encode_input :
    (x : Externs) (f : Function) (ts : Tokens) (call : Bytes)
    → IsExterns x
    → encode_input x f ts ≡ ok call
    → take 4 call ≡ short_signature x f
unfolding encode_input short_signature
take-encode_input x f ts call ext h =
    let signed = Signature.short_signature x f.name (input_param_types f) in
    subst (λ n. take n call ≡ signed) (length-short_signature x ext f.name (input_param_types f))
      (take-checked_call x (input_param_types f) ts signed call h)
