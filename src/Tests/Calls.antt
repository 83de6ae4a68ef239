-- ===== src/Tests/Calls.antt =====
-- Calls, errors and constructors at sample values.
use ethabi.Base.{
  ℕ, ◌≡◌, List, refl, none, false, [], ◌∷◌, ◌++◌, length, take, drop, ok, ◌>>=◌, arith, text,
}
use ethabi.Word.{pad_u32}
use ethabi.ParamType.{ParamType}
use ethabi.Encoder.Spec.{encoding}
use ethabi.Decoder.{decode}
use ethabi.Param.{Param, StateMutability, kinds}
use ethabi.Function.{
  Function, encode_input, decode_input, short_signature, signature, input_param_types,
}
use ethabi.Function.Input.{decode_input-encode_input, take-encode_input}
use ethabi.Calls.{checked_call-encoding}
use ethabi.AbiError
use ethabi.AbiError.{AbiError, decode-encode_raised}
use ethabi.Constructor
use ethabi.Constructor.{Constructor, decode-encode_input}
use ethabi.Tests.Samples.{externs, externs-IsExterns, tokens, tokens-AreTokens, tokens-HaveTypes}

abbrev params : List Param
params =
    record { name = text "n"; kind = ParamType.uint 256; internal_type = none }
    ∷ record { name = text "s"; kind = ParamType.string; internal_type = none }
    ∷ record { name = text "flags"; kind = ParamType.array ParamType.bool; internal_type = none }
    ∷ []

abbrev pub call_it : Function
call_it = record {
  name = text "f";
  inputs = params;
  outputs = [];
  constant = none;
  state_mutability = StateMutability.non_payable;
}

abbrev pub raise_it : AbiError
raise_it = record { name = text "E"; inputs = params }

abbrev build_it : Constructor
build_it = record { inputs = params }

sample_signature : signature call_it ≡ text "f(uint256,string,bool[])"
unfolding signature ethabi.Base.join ethabi.Base.decimal ethabi.Base.digits
sample_signature = refl

decode_input-encode_input_example :
    (encode_input externs call_it tokens >>= λ call. decode_input externs call_it (drop 4 call))
    ≡ ok tokens
unfolding input_param_types
decode_input-encode_input_example =
    decode_input-encode_input externs call_it tokens externs-IsExterns tokens-AreTokens
      tokens-HaveTypes (unfold encoding pad_u32 in omega arith)

called :
    encode_input externs call_it tokens
    ≡ ok (short_signature externs call_it ++ encoding externs tokens)
unfolding encode_input short_signature input_param_types
called =
    checked_call-encoding externs externs-IsExterns tokens (kinds params) tokens-AreTokens
      tokens-HaveTypes (unfold encoding pad_u32 in omega arith) (short_signature externs call_it)

take-encode_input_example :
    take 4 (short_signature externs call_it ++ encoding externs tokens)
    ≡ short_signature externs call_it
take-encode_input_example =
    take-encode_input externs call_it tokens
      (short_signature externs call_it ++ encoding externs tokens) externs-IsExterns called

decode-encode_raised_example :
    (AbiError.encode externs raise_it tokens >>= λ raised.
    AbiError.decode externs raise_it (drop 4 raised))
    ≡ ok tokens
unfolding AbiError.param_types
decode-encode_raised_example =
    decode-encode_raised externs raise_it tokens externs-IsExterns tokens-AreTokens tokens-HaveTypes
      (unfold encoding pad_u32 in omega arith)

decode-encode_input_example :
    (Constructor.encode_input externs build_it (1 ∷ 2 ∷ []) tokens
      ≡ ok ((1 ∷ 2 ∷ []) ++ encoding externs tokens))
    × ((Constructor.encode_input externs build_it (1 ∷ 2 ∷ []) tokens >>= λ call.
          decode externs (Constructor.param_types build_it) (drop 2 call))
        ≡ ok tokens)
unfolding Constructor.param_types
decode-encode_input_example =
    decode-encode_input externs build_it (1 ∷ 2 ∷ []) tokens externs-IsExterns tokens-AreTokens
      tokens-HaveTypes (unfold encoding pad_u32 in omega arith)
