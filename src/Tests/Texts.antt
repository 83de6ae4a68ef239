-- ===== src/Tests/Texts.antt =====
-- Tokens from text.
use ethabi.Base.{
  ℕ, ◌≤◌, ◌≡◌, refl, true, false, none, List, [], ◌∷◌, ◌++◌, All, Bytes, Result, ok, err,
  invalid_data, panic, arith, text, join,
}
use ethabi.ParamType.{ParamType, ParamTypes}
use ethabi.Token.{Token, Tokens, nil, cons}
use ethabi.Tokenizer.{tokenize_array}
use ethabi.Tokenizer.Structs.{TokenizerMethods, tokenize}
use ethabi.Tokenizer.Strict.{strict_tokenizer}
use ethabi.Tokenizer.Scan.{tokens_of, tokenize_array-join}
use ethabi.Token.Conversions.{Printers, display}
use ethabi.Tokenizer.Printed.{tokenize-display}
use ethabi.Tests.Samples.{externs}

abbrev no_hex : TokenizerMethods
unfolding strict_tokenizer
no_hex = strict_tokenizer (λ _. none)

abbrev pair : ParamType
pair =
    ParamType.tuple
      (ParamTypes.cons ParamType.bool (ParamTypes.cons ParamType.string ParamTypes.nil))

-- The bracket that the second tuple leaves open hides its second field.
sample_tokenized :
    tokenize externs no_hex (ParamType.array pair) (text "[(true,a),(0,[b)]")
    ≡ ok (
        Token.array (
          cons
            (Token.tuple (cons (Token.bool true) (cons (Token.string (text "a")) nil)))
            (cons (Token.tuple (cons (Token.bool false) nil)) nil)))
unfolding tokenize no_hex ethabi.Base.text_eq
sample_tokenized = refl

nested_tokenized :
    tokenize externs no_hex (ParamType.array (ParamType.array ParamType.bool)) (text "[[1,0],[]]")
    ≡ ok (
        Token.array (
          cons
            (Token.array (cons (Token.bool true) (cons (Token.bool false) nil)))
            (cons (Token.array nil) nil)))
unfolding tokenize no_hex ethabi.Base.text_eq
nested_tokenized = refl

-- Positions count characters, and slices count bytes: behind the two bytes of "é" they differ.
accent_tokenized :
    tokenize externs no_hex
      (ParamType.array ParamType.string)
      (0x5b ∷ 0xc3 ∷ 0xa9 ∷ 0x2c ∷ 0x62 ∷ 0x5d ∷ [])
    ≡ panic
unfolding tokenize no_hex
accent_tokenized = refl

tokenize_array-join_example :
    tokenize_array
      (tokenize externs no_hex ParamType.bool)
      (b'[' ∷ (join (text ",") (text "true" ∷ text "0" ∷ []) ++ (b']' ∷ [])))
    ≡ tokens_of (tokenize externs no_hex ParamType.bool) (text "true" ∷ text "0" ∷ [])
tokenize_array-join_example =
    tokenize_array-join (tokenize externs no_hex ParamType.bool) (text "true") (text "0" ∷ [])
      ((refl, (refl, (refl, (refl, tt)))), ((refl, tt), tt)) (omega arith)

abbrev printers : Printers
printers = record { address_hex = λ bs. bs; u256_hex = λ i. i ∷ []; hex_encode = λ bs. bs }

abbrev flags : Tokens
flags = cons (Token.bool true) (cons (Token.bool false) nil)

tokenize-display_example :
    tokenize externs no_hex (ParamType.array ParamType.bool) (display printers (Token.array flags))
    ≡ ok (Token.array flags)
unfolding display tokenize no_hex ethabi.Base.text_eq
tokenize-display_example = tokenize-display printers externs no_hex ParamType.bool flags (
  ((refl, (refl, (refl, (refl, tt)))), omega arith, refl),
  (((refl, (refl, (refl, (refl, (refl, tt))))), omega arith, refl), tt),
)
