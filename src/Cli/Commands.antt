-- ===== src/Cli/Commands.antt =====
-- cli/src/main.rs: the commands.
use ethabi.Base.{
  ◌==◌, ◌%◌, Bool, true, false, if◌then◌else◌, List, [], ◌∷◌, ◌++◌, length, Bytes, Result, ok,
  panic, ◌>>=◌, text, join,
}
use ethabi.Function
use ethabi.Function.{Function}
use ethabi.Event
use ethabi.Event.{RawLog, LogParam}
use ethabi.Param.{Param}
use ethabi.ParamType
use ethabi.ParamType.{ParamType, ParamTypes}
use ethabi.ParamType.Reader.{read}
use ethabi.ParamType.Writer.{write}
use ethabi.Token
use ethabi.Token.{Token, Tokens}
use ethabi.Token.Conversions.{display}
use ethabi.Encoder.{encode}
use ethabi.Decoder.{decode}
use ethabi.Tokenizer.Structs.{tokenize}
use ethabi.Tokenizer.Strict.{strict_tokenizer, decode_hex}
use ethabi.Tokenizer.Lenient.{lenient_tokenizer}
use ethabi.Cli.{Tools, load_function, load_event}

-- The commands with their arguments, as structopt parses them.
pub data Opt : Type 0 where
  encode_function : Bytes → Bytes → List Bytes → Bool → Opt
  encode_params_ : List Bytes → Bool → Opt
  decode_function : Bytes → Bytes → Bytes → Opt
  decode_params_ : List Bytes → Bytes → Opt
  decode_log_ : Bytes → Bytes → List Bytes → Bytes → Opt

-- `items.map(f).collect::<Result<Vec<_>, _>>()`
abbrev pub collect {ℓ κ} : {S : Type ℓ} {T : Type κ} → (S → Result T) → List S → Result (List T)
collect f [] = ok []
collect f (s ∷ ss) = let rest = collect f ss in f s >>= λ t. rest >>= λ ts. ok (t ∷ ts)

-- The same, into tokens, which are a list of their own.
abbrev pub collect_tokens {ℓ} : {S : Type ℓ} → (S → Result Token) → List S → Result Tokens
collect_tokens f [] = ok Token.nil
collect_tokens f (s ∷ ss) =
    let rest = collect_tokens f ss in f s >>= λ t. rest >>= λ ts. ok (Token.cons t ts)

abbrev pub types_of : List ParamType → ParamTypes
types_of [] = ParamTypes.nil
types_of (p ∷ ps) = ParamTypes.cons p (types_of ps)

-- `function.inputs.iter().map(..).zip(values.iter())`: the longer list is cut.
unfoldable pub zip_inputs : List Param → List Bytes → List (ParamType × Bytes)
zip_inputs (p ∷ ps) (v ∷ vs) = (p.kind, v) ∷ zip_inputs ps vs
zip_inputs _ _ = []

-- `params.iter().tuples::<(_, _)>()`
unfoldable pub pairs : List Bytes → List (Bytes × Bytes)
pairs [] = []
pairs (x ∷ []) = []
pairs (x ∷ y ∷ rest) = (x, y) ∷ pairs rest

-- `format!("{ty} {to}")` for each type with its token.
unfoldable pub lines : (Token → Bytes) → List ParamType → Tokens → List Bytes
unfolding write
lines show (p ∷ ps) (Token.cons t ts) = (write p ++ (text " " ++ show t)) ∷ lines show ps ts
lines show _ _ = []

unfoldable pub output_kinds : List Param → List ParamType
output_kinds [] = []
output_kinds (p ∷ ps) = p.kind ∷ output_kinds ps

-- `format!("{} {}", log_param.name, log_param.value)`
unfoldable pub log_lines : (Token → Bytes) → List LogParam → List Bytes
log_lines show [] = []
log_lines show (p ∷ ps) = (p.name ++ (text " " ++ show p.value)) ∷ log_lines show ps

-- A line feed.
abbrev pub newline : Bytes
newline = 10 ∷ []

module _ (t : Tools) where
  unfoldable pub parse_token : Bool → (ParamType × Bytes) → Result Token
  unfolding tokenize strict_tokenizer lenient_tokenizer
  parse_token true param =
      tokenize t.externs (lenient_tokenizer t.externs t.decimals) param.0 param.1
  parse_token false param =
      tokenize t.externs (strict_tokenizer t.decimals.hex_decode) param.0 param.1

  unfoldable pub parse_tokens : List (ParamType × Bytes) → Bool → Result Tokens
  unfolding parse_token
  parse_tokens params lenient = collect_tokens (parse_token lenient) params

  unfoldable pub encode_input : Bytes → Bytes → List Bytes → Bool → Result Bytes
  unfolding load_function zip_inputs parse_tokens Function.encode_input
  encode_input path name_or_signature values lenient = do
    function ← load_function t path name_or_signature
    tokens ← parse_tokens (zip_inputs function.inputs values) lenient
    result ← Function.encode_input t.externs function tokens
    ok (t.printers.hex_encode result)

  -- `Reader::read(x).map(|z| (z, y))` for each pair.
  unfoldable pub read_pairs : List (Bytes × Bytes) → Result (List (ParamType × Bytes))
  unfolding read
  read_pairs ps = collect (λ (p : Bytes × Bytes). read p.0 >>= λ kind. ok (kind, p.1)) ps

  unfoldable pub encode_params : List Bytes → Bool → Result Bytes
  unfolding pairs read_pairs parse_tokens encode
  encode_params params lenient =
      if length params % 2 == 0
      then (do
        typed ← read_pairs (pairs params)
        tokens ← parse_tokens typed lenient
        result ← encode t.externs tokens
        ok (t.printers.hex_encode result))
      else panic

  -- What is printed of decoded tokens.
  unfoldable pub print_tokens : List ParamType → Tokens → Result Bytes
  unfolding lines display
  print_tokens types tokens =
      if ParamType.count (types_of types) == Token.count tokens
      then ok (join newline (lines (display t.printers) types tokens))
      else panic

  unfoldable pub decode_call_output : Bytes → Bytes → Bytes → Result Bytes
  unfolding load_function Function.decode_output print_tokens output_kinds decode_hex
  decode_call_output path name_or_signature data_text = do
    function ← load_function t path name_or_signature
    bs ← decode_hex t.decimals.hex_decode data_text
    tokens ← Function.decode_output t.externs function bs
    print_tokens (output_kinds function.outputs) tokens

  unfoldable pub decode_params : List Bytes → Bytes → Result Bytes
  unfolding read decode print_tokens decode_hex
  decode_params types data_text = do
    kinds ← collect read types
    bs ← decode_hex t.decimals.hex_decode data_text
    tokens ← decode t.externs (types_of kinds) bs
    print_tokens kinds tokens

  unfoldable pub decode_log : Bytes → Bytes → List Bytes → Bytes → Result Bytes
  unfolding load_event Event.parse_log log_lines display decode_hex
  decode_log path name_or_signature topics data_text = do
    event ← load_event t path name_or_signature
    hashes ← collect t.parse_hash topics
    bs ← decode_hex t.decimals.hex_decode data_text
    decoded ← Event.parse_log t.externs event (record { topics = hashes; log_data = bs })
    ok (join newline (log_lines (display t.printers) decoded.params))

  unfoldable pub execute : Opt → Result Bytes
  unfolding encode_input encode_params decode_call_output decode_params decode_log
  execute (encode_function path name values lenient) = encode_input path name values lenient
  execute (encode_params_ params lenient) = encode_params params lenient
  execute (decode_function path name data_text) = decode_call_output path name data_text
  execute (decode_params_ types data_text) = decode_params types data_text
  execute (decode_log_ path name topics data_text) = decode_log path name topics data_text
