-- ===== src/AbiError.antt =====
-- ethabi/src/error.rs: custom errors of a contract.
use ethabi.Base.{
  ◌^◌, ◌<◌, ◌≡◌, subst, List, ◌++◌, length, drop, Bytes, Result, ok, invalid_data, ◌>>=◌, ◌>>◌,
  guard,
}
use ethabi.Externs.{Externs, IsExterns}
use ethabi.ParamType.{ParamTypes}
use ethabi.Token.{Tokens, types_check}
use ethabi.Token.Typing.{AreTokens, HaveTypes}
use ethabi.Encoder
use ethabi.Encoder.Spec.{encoding}
use ethabi.Decoder
use ethabi.Signature.{short_signature, long_signature, length-short_signature}
use ethabi.Param.{Param, kinds}
use ethabi.Calls.{checked_call, decode-checked_call}

pub record AbiError : Type 0 where
  pub name : Bytes
  pub inputs : List Param

unfoldable pub param_types : AbiError → ParamTypes
unfolding kinds
param_types e = kinds e.inputs

module _ (x : Externs) where
  unfoldable pub signature : AbiError → Bytes
  signature e = long_signature x e.name (param_types e)

  -- The selector, and the encoded arguments.
  unfoldable pub encode : AbiError → Tokens → Result Bytes
  encode e tokens = do
    checked ← types_check tokens (param_types e)
    guard checked invalid_data
    let signed = short_signature x e.name (param_types e)
    encoded ← Encoder.encode x tokens
    ok (signed ++ encoded)

  unfoldable pub decode : AbiError → Bytes → Result Tokens
  decode e bs = Decoder.decode x (param_types e) bs

-- An error's data that was built for tokens of its input types, with an encoding shorter than
-- 2 ^ 32 bytes, is read back by `decode` from behind its four bytes of selector.
pub decode-encode_raised :
    (x : Externs) (e : AbiError) (ts : Tokens)
    → IsExterns x
    → AreTokens ts
    → HaveTypes ts (param_types e)
    → length (encoding x ts) < 2 ^ 32
    → (encode x e ts >>= λ raised. decode x e (drop 4 raised)) ≡ ok ts
unfolding encode decode
decode-encode_raised x e ts ext w h fits =
    let signed = short_signature x e.name (param_types e) in
    subst
      (λ n.
        (checked_call x (param_types e) ts signed >>= λ raised.
        Decoder.decode x (param_types e) (drop n raised))
        ≡ ok ts)
      (length-short_signature x ext e.name (param_types e))
      (decode-checked_call x ext ts (param_types e) w h fits signed)
