-- ===== src/Cli/RoundTrip.antt =====
-- `encode_params` and `decode_params` (cli/src/main.rs) together.
use ethabi.Base.{
  ==_refl, ◌%◌, ◌<◌, ◌^◌, Bool, true, false, Option, some, List, [], ◌∷◌, ◌++◌, append-nil, length,
  All, Bytes, Result, ok, ◌>>=◌, bind_ok, Yields-ok, join, ◌≡◌, refl, sym, ap, ◌∙◌, subst,
}
use ethabi.Externs.{IsExterns}
use ethabi.ParamType
use ethabi.ParamType.{ParamType, ParamTypes}
use ethabi.ParamType.Reader.{read}
use ethabi.Token
use ethabi.Token.{Token, Tokens}
use ethabi.Token.Typing.{AreTokens, HasType, HaveTypes}
use ethabi.Token.Dynamic.{count-HaveTypes}
use ethabi.Token.Conversions.{display}
use ethabi.Encoder.{encode}
use ethabi.Encoder.Spec.{encoding}
use ethabi.Encoder.Refines.{encode-eq-encoding}
use ethabi.Decoder.{decode}
use ethabi.RoundTrip.{decode-encode}
use ethabi.Tokenizer.Strict.{decode_hex}
use ethabi.Tokenizer.Typed.{IsPlain, tokenize-HasType}
use ethabi.Cli.{Tools}
use ethabi.Cli.Commands.{
  collect, collect_tokens, types_of, pairs, lines, newline, parse_token, parse_tokens, read_pairs,
  encode_params, print_tokens, decode_params,
}

-- The types among the arguments, as texts and as they are read.
abbrev pub type_names : List (Bytes × Bytes) → List Bytes
type_names [] = []
type_names (p ∷ ps) = p.0 ∷ type_names ps

abbrev pub kinds_of : List (ParamType × Bytes) → List ParamType
kinds_of [] = []
kinds_of (p ∷ ps) = p.0 ∷ kinds_of ps

collect-type_names :
    (ps : List (Bytes × Bytes)) (typed : List (ParamType × Bytes))
    → collect (λ (p : Bytes × Bytes). read p.0 >>= λ kind. ok (kind, p.1)) ps ≡ ok typed
    → collect read (type_names ps) ≡ ok (kinds_of typed)
collect-type_names [] typed h =
    let same : [] ≡ typed = cc in subst (λ l. ok [] ≡ ok (kinds_of l)) same refl
collect-type_names (p ∷ ps) typed h =
    let step =
      bind_ok (read p.0 >>= λ kind. ok (kind, p.1))
        (λ t. collect (λ (p : Bytes × Bytes). read p.0 >>= λ kind. ok (kind, p.1)) ps >>= λ ts.
          ok (t ∷ ts))
        typed h in
    let kind = bind_ok (read p.0) (λ kind. ok (kind, p.1)) step.0 step.1 in
    let rest : Result (List (ParamType × Bytes)) =
      collect (λ (p : Bytes × Bytes). read p.0 >>= λ kind. ok (kind, p.1)) ps in
    let tail = bind_ok rest (λ ts. ok (step.0 ∷ ts)) typed step.2 in
    let pair : (kind.0, p.1) ≡ step.0 = cc in
    let same : step.0 ∷ tail.0 ≡ typed = cc in
    let first : kind.0 ≡ step.0.0 = ap (λ (q : ParamType × Bytes). q.0) pair in
    ap (λ r. r >>= λ t. collect read (type_names ps) >>= λ ts. ok (t ∷ ts)) kind.1
    ∙ ap (λ r. r >>= λ ts. ok (kind.0 ∷ ts)) (collect-type_names ps tail.0 tail.1)
    ∙ ap (λ k. ok (k ∷ kinds_of tail.0)) first
    ∙ ap (λ l. ok (kinds_of l)) same

decode_hex-some :
    (hex_decode : Bytes → Option Bytes) (s bs : Bytes)
    → hex_decode s ≡ some bs
    → decode_hex hex_decode s ≡ ok bs
unfolding decode_hex
decode_hex-some hex_decode s bs h = rw (h, decode_hex) refl

module _ (t : Tools) where
  parse_token-HasType :
      (lenient : Bool) (p : ParamType × Bytes) (v : Token)
      → IsPlain p.0
      → parse_token t lenient p ≡ ok v
      → HasType v p.0
  unfolding parse_token
  parse_token-HasType true p v h e =
      Yields-ok (parse_token t true p) (tokenize-HasType t.externs t.decimals p.0 p.1 h).1 e
  parse_token-HasType false p v h e =
      Yields-ok (parse_token t false p) (tokenize-HasType t.externs t.decimals p.0 p.1 h).0 e

  decode_params_run :
      (types : List Bytes) (data_text : Bytes) (kinds : List ParamType) (bs : Bytes) (ts : Tokens)
      → collect read types ≡ ok kinds
      → t.decimals.hex_decode data_text ≡ some bs
      → decode t.externs (types_of kinds) bs ≡ ok ts
      → ParamType.count (types_of kinds) ≡ Token.count ts
      → decode_params t types data_text ≡ ok (join newline (lines (display t.printers) kinds ts))
  unfolding decode_params print_tokens decode_hex
  decode_params_run types data_text kinds bs ts read_ hexed back count =
      let print : List ParamType → Tokens → Result Bytes = print_tokens t in
      let whole : Result (List ParamType) → Result Bytes = λ r. r >>= λ kinds.
      decode_hex t.decimals.hex_decode data_text >>= λ bs.
      decode t.externs (types_of kinds) bs >>= λ ts. print kinds ts in
      ap whole read_
      ∙ ap (λ r. r >>= λ bs. decode t.externs (types_of kinds) bs >>= λ ts. print kinds ts)
          (decode_hex-some t.decimals.hex_decode data_text bs hexed)
      ∙ ap (λ r. r >>= λ ts. print kinds ts) back
      ∙ (rw (count, ==_refl (Token.count ts)) refl)

module _ (t : Tools) (lenient : Bool) where
  parse_tokens-HaveTypes :
      (typed : List (ParamType × Bytes)) (ts : Tokens)
      → All IsPlain (kinds_of typed)
      → collect_tokens (parse_token t lenient) typed ≡ ok ts
      → HaveTypes ts (types_of (kinds_of typed))
  parse_tokens-HaveTypes [] ts h e =
      let same : Token.nil ≡ ts = cc in subst (λ l. HaveTypes l ParamTypes.nil) same tt
  parse_tokens-HaveTypes (p ∷ ps) ts h e =
      let head =
        bind_ok (parse_token t lenient p)
          (λ v. collect_tokens (parse_token t lenient) ps >>= λ vs. ok (Token.cons v vs)) ts e in
      let tail =
        bind_ok (collect_tokens (parse_token t lenient) ps) (λ vs. ok (Token.cons head.0 vs)) ts
          head.2 in
      let same : Token.cons head.0 tail.0 ≡ ts = cc in
      subst (λ l. HaveTypes l (types_of (kinds_of (p ∷ ps)))) same
        (
          parse_token-HasType t lenient p head.0 h.0 head.1,
          parse_tokens-HaveTypes ps tail.0 h.1 tail.1,
        )

  encode_params_run :
      (args : List Bytes) (typed : List (ParamType × Bytes)) (ts : Tokens) (bs : Bytes)
      → length args % 2 ≡ 0
      → read_pairs t (pairs args) ≡ ok typed
      → parse_tokens t typed lenient ≡ ok ts
      → encode t.externs ts ≡ ok bs
      → encode_params t args lenient ≡ ok (t.printers.hex_encode bs)
  unfolding encode_params
  encode_params_run args typed ts bs even read_ parsed whole =
      let print : Result Bytes → Result Bytes = λ r. r >>= λ out. ok (t.printers.hex_encode out) in
      rw even (
        ap (λ r. r >>= λ typed. parse_tokens t typed lenient >>= λ ts. print (encode t.externs ts))
          read_
        ∙ ap (λ r. r >>= λ ts. print (encode t.externs ts)) parsed
        ∙ ap print whole)

  -- Arguments that name a plain type and a text for it in turn, where every text is read as a token of
  -- its type: what `encode_params` prints is read by `decode_params` with the same types, and it prints
  -- each type with its token, in the arguments' order.
  pub decode_params-encode_params :
      (args : List Bytes) (typed : List (ParamType × Bytes)) (ts : Tokens)
      → IsExterns t.externs
      → ((bs : Bytes) → t.decimals.hex_decode (t.printers.hex_encode bs) ≡ some bs)
      → length args % 2 ≡ 0
      → read_pairs t (pairs args) ≡ ok typed
      → All IsPlain (kinds_of typed)
      → parse_tokens t typed lenient ≡ ok ts
      → AreTokens ts
      → length (encoding t.externs ts) < 2 ^ 32
      → (encode_params t args lenient >>= decode_params t (type_names (pairs args)))
        ≡ ok (join newline (lines (display t.printers) (kinds_of typed) ts))
  unfolding read_pairs parse_tokens
  decode_params-encode_params args typed ts ext hex even read_ plain parsed tokens fits =
      let x = t.externs in
      let kinds = kinds_of typed in
      let bs = encoding x ts in
      let has = parse_tokens-HaveTypes typed ts plain parsed in
      let whole = encode-eq-encoding x ext ts tokens fits in
      let fits' : length (bs ++ []) < 2 ^ 32 = (rw (append-nil bs) fits) in
      let back : decode x (types_of kinds) bs ≡ ok ts =
        ap (decode x (types_of kinds)) (sym (append-nil bs))
        ∙ sym (ap (λ r. r >>= λ bs. decode x (types_of kinds) (bs ++ [])) whole)
        ∙ decode-encode x ext ts (types_of kinds) [] tokens has fits' in
      ap (λ r. r >>= decode_params t (type_names (pairs args)))
        (encode_params_run args typed ts bs even read_ parsed whole)
      ∙ decode_params_run t (type_names (pairs args)) (t.printers.hex_encode bs) kinds bs ts
          (collect-type_names (pairs args) typed read_) (hex bs) back
          (count-HaveTypes ts (types_of kinds) has)
