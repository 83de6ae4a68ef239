-- ===== src/Function.antt =====
-- ethabi/src/function.rs: calls of a contract's functions.
pub mod Input
use ethabi.Base.{
  ℕ, Bool, if◌then◌else◌, Option, List, [], ◌∷◌, ◌++◌, Bytes, text, join, length, ◌==◌, Result, ok,
  invalid_data, ◌>>=◌, ◌>>◌, guard,
}
use ethabi.Externs.{Externs}
use ethabi.ParamType.{ParamTypes}
use ethabi.ParamType.Writer.{write_all}
use ethabi.Token.{Tokens, types_check}
use ethabi.Encoder.{encode}
use ethabi.Decoder.{decode}
use ethabi.Signature
use ethabi.Param.{Param, StateMutability, kinds}

pub record Function : Type 0 where
  pub name : Bytes
  pub inputs : List Param
  pub outputs : List Param
  pub constant : Option Bool
  pub state_mutability : StateMutability

unfoldable pub input_param_types : Function → ParamTypes
unfolding kinds
input_param_types f = kinds f.inputs

unfoldable pub output_param_types : Function → ParamTypes
unfolding kinds
output_param_types f = kinds f.outputs

module _ (x : Externs) where
  -- The selector, and the encoded arguments.
  unfoldable pub encode_input : Function → Tokens → Result Bytes
  encode_input f tokens = do
    checked ← types_check tokens (input_param_types f)
    guard checked invalid_data
    let signed = Signature.short_signature x f.name (input_param_types f)
    encoded ← encode x tokens
    ok (signed ++ encoded)

  unfoldable pub short_signature : Function → Bytes
  short_signature f = Signature.short_signature x f.name (input_param_types f)

  unfoldable pub decode_output : Function → Bytes → Result Tokens
  decode_output f bs = decode x (output_param_types f) bs

  unfoldable pub decode_input : Function → Bytes → Result Tokens
  decode_input f bs = decode x (input_param_types f) bs

-- `name(inputs)`, and `:(outputs)` behind it where there are outputs.
unfoldable pub signature : Function → Bytes
unfolding input_param_types output_param_types write_all
signature f =
    let inputs = join (text ",") (write_all (input_param_types f)) in
    let outputs = join (text ",") (write_all (output_param_types f)) in
    if length outputs == 0
    then f.name ++ (text "(" ++ (inputs ++ text ")"))
    else f.name ++ (text "(" ++ (inputs ++ (text "):(" ++ (outputs ++ text ")"))))
