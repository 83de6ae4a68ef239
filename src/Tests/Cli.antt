-- ===== src/Tests/Cli.antt =====
-- The command line.
use ethabi.Base.{
  ℕ, ◌==◌, ◌+◌, ◌*◌, ◌-◌, ◌/◌, ◌%◌, ◌<◌, ◌≡◌, refl, true, false, some, none, Option, List, [], ◌∷◌,
  ◌++◌, length, Bytes, Result, ok, err, panic, other, ◌>>=◌, if◌then◌else◌, join, text, arith,
  Yields,
}
use ethabi.Param.{view}
use ethabi.ParamType
use ethabi.ParamType.{ParamType}
use ethabi.Token
use ethabi.Token.{Token, Tokens}
use ethabi.Token.Typing.{HasType}
use ethabi.Token.Conversions.{display}
use ethabi.Tokenizer.Structs.{tokenize}
use ethabi.Tokenizer.Strict.{strict_tokenizer}
use ethabi.Tokenizer.Lenient.{lenient_tokenizer}
use ethabi.Tokenizer.Typed.{tokenize-HasType}
use ethabi.Function
use ethabi.Function.{Function}
use ethabi.Event
use ethabi.Event.{Event}
use ethabi.Contract.{function_, event_, receive_, visit_seq}
use ethabi.Cli.{Tools, load_function, load_event, remove_spaces}
use ethabi.Cli.Commands.{
  execute, encode_params, decode_params, encode_params_, lines, newline, pairs, read_pairs,
  parse_tokens,
}
use ethabi.Cli.Loading.{load_function-signature, load_event-signature, canonical}
use ethabi.Cli.RoundTrip.{decode_params-encode_params, type_names, kinds_of}
use ethabi.Tests.Samples.{externs, externs-IsExterns}
use ethabi.Tests.Decimals.{decimals}

abbrev set : Function
set = record {
  name = text "set";
  inputs = record { name = text "on"; kind = ParamType.bool; internal_type = none } ∷ [];
  outputs = record { name = []; kind = ParamType.string; internal_type = none } ∷ [];
  constant = none;
  state_mutability = view;
}

abbrev moved : Event
moved = record {
  name = text "Moved";
  inputs =
      record { name = text "to"; kind = ParamType.bool; indexed = true }
      ∷ (record { name = text "name"; kind = ParamType.string; indexed = false } ∷ []);
  anonymous = false;
}

-- Bytes stand for their own hexadecimal text.
abbrev tools : Tools
tools = record {
  externs = externs;
  decimals = record decimals { hex_decode = λ s. some s };
  printers = record { address_hex = λ bs. bs; u256_hex = λ i. i ∷ []; hex_encode = λ bs. bs };
  load = λ path. ok (visit_seq (receive_ ∷ (function_ set ∷ (event_ moved ∷ []))));
  show_hash = λ h. h;
  parse_hash = λ s. ok s;
}

load_function-signature_example :
    (g : Function) × (load_function tools (text "a.json") (Function.signature set) ≡ ok g)
    × (Function.signature g ≡ Function.signature set)
load_function-signature_example =
    load_function-signature tools (text "a.json") (receive_ ∷ []) (event_ moved ∷ []) set refl
      (refl, (refl, (refl, tt)))

set-signature : Function.signature set ≡ text "set(bool):(string)"
unfolding Function.signature ethabi.ParamType.Writer.write_all join
set-signature = refl

spaced : remove_spaces (moved.name ++ (b'(' ∷ text "bool, string)")) ≡ canonical moved
unfolding remove_spaces ethabi.ParamType.Writer.write_all ethabi.Event.param_types join
spaced = refl

load_event-signature_example :
    (g : Event) × (load_event tools (text "a.json") (text "Moved(bool, string)") ≡ ok g)
    × (Event.signature externs g ≡ Event.signature externs moved)
load_event-signature_example =
    load_event-signature tools (text "a.json") (receive_ ∷ (function_ set ∷ [])) [] moved
      (text "bool, string)") externs-IsExterns refl (refl, (refl, (refl, (refl, (refl, tt)))))
      spaced

abbrev args : List Bytes
args = text "bool" ∷ (text "1" ∷ (text "string" ∷ (text "hi" ∷ [])))

abbrev typed_args : List (ParamType × Bytes)
typed_args = (ParamType.bool, text "1") ∷ ((ParamType.string, text "hi") ∷ [])

abbrev args_tokens : Tokens
args_tokens = Token.cons (Token.bool true) (Token.cons (Token.string (text "hi")) Token.nil)

args_read : read_pairs tools (pairs args) ≡ ok typed_args
unfolding read_pairs pairs ethabi.Base.text_eq
args_read = refl

args_parsed : parse_tokens tools typed_args false ≡ ok args_tokens
unfolding parse_tokens ethabi.Base.text_eq
args_parsed = refl

decode_params-encode_params_example :
    (encode_params tools args false >>= decode_params tools (type_names (pairs args)))
    ≡ ok (join newline (lines (display tools.printers) (kinds_of typed_args) args_tokens))
unfolding ethabi.Utf8.is_utf8 ethabi.Encoder.Spec.encoding ethabi.Word.pad_u32
decode_params-encode_params_example =
    decode_params-encode_params tools false args typed_args args_tokens externs-IsExterns
      (λ bs. refl) refl args_read (tt, (tt, tt)) args_parsed (tt, (refl, tt)) (omega arith)

odd : execute tools (encode_params_ (text "bool" ∷ []) true) ≡ panic
unfolding execute
odd = refl

tokenize-HasType_example :
    Yields
      (λ t. HasType t (ParamType.array (ParamType.fixed_bytes 4)))
      (tokenize externs
        (strict_tokenizer decimals.hex_decode)
        (ParamType.array (ParamType.fixed_bytes 4))
        (text "[0x01020304]"))
    × Yields
        (λ t. HasType t (ParamType.array (ParamType.fixed_bytes 4)))
        (tokenize externs
          (lenient_tokenizer externs decimals)
          (ParamType.array (ParamType.fixed_bytes 4))
          (text "[0x01020304]"))
tokenize-HasType_example =
    tokenize-HasType externs decimals (ParamType.array (ParamType.fixed_bytes 4))
      (text "[0x01020304]") (omega arith, omega arith)
