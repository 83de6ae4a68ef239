-- ===== src/Constructor.antt =====
-- ethabi/src/constructor.rs: constructors of a contract.
use ethabi.Base.{
  ◌^◌, ◌<◌, ◌≡◌, List, ◌++◌, length, drop, Bytes, Result, ok, invalid_data, ◌>>=◌, ◌>>◌, guard,
}
use ethabi.Externs.{Externs, IsExterns}
use ethabi.ParamType.{ParamTypes}
use ethabi.Token.{Tokens, types_check}
use ethabi.Token.Typing.{AreTokens, HaveTypes}
use ethabi.Encoder.{encode}
use ethabi.Encoder.Spec.{encoding}
use ethabi.Decoder.{decode}
use ethabi.Param.{Param, kinds}
use ethabi.Calls.{checked_call-encoding, decode-checked_call}

pub record Constructor : Type 0 where
  pub inputs : List Param

unfoldable pub param_types : Constructor → ParamTypes
unfolding kinds
param_types c = kinds c.inputs

-- The code, and the encoded arguments.
unfoldable pub encode_input : Externs → Constructor → Bytes → Tokens → Result Bytes
encode_input x c code tokens = do
  checked ← types_check tokens (param_types c)
  guard checked invalid_data
  encoded ← encode x tokens
  ok (code ++ encoded)

-- For tokens of the input types, with an encoding shorter than 2 ^ 32 bytes, `encode_input` returns
-- the code followed by that encoding, from which `decode` reads the tokens back.
pub decode-encode_input :
    (x : Externs) (c : Constructor) (code : Bytes) (ts : Tokens)
    → IsExterns x
    → AreTokens ts
    → HaveTypes ts (param_types c)
    → length (encoding x ts) < 2 ^ 32
    → (encode_input x c code ts ≡ ok (code ++ encoding x ts))
      × ((encode_input x c code ts >>= λ call. decode x (param_types c) (drop (length code) call))
          ≡ ok ts)
unfolding encode_input
decode-encode_input x c code ts ext w h fits = (
  checked_call-encoding x ext ts (param_types c) w h fits code,
  decode-checked_call x ext ts (param_types c) w h fits code,
)
