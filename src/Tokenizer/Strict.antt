-- ===== src/Tokenizer/Strict.antt =====
-- ethabi/src/token/strict.rs: the tokenizer that takes hexadecimal values.
use ethabi.Base.{
  ℕ, Bool, true, false, ◌||◌, ◌==◌, if◌then◌else◌, Option, some, none, length, Bytes, Result, ok,
  err, hex, invalid_data, ◌>>=◌, text, text_eq,
}
use ethabi.Tokenizer.Structs.{TokenizerMethods}

-- `hex_decode` is the hex crate's `decode`, whose errors become `Error::Hex`.
module _ (hex_decode : Bytes → Option Bytes) where
  unfoldable pub decode_hex : Bytes → Result Bytes
  decode_hex value = elim (hex_decode value) [ some bs ↦ ok bs | none ↦ err hex ]

  -- Bytes of the given number.
  unfoldable pub decode_sized : Bytes → ℕ → Result Bytes
  unfolding decode_hex
  decode_sized value len =
      decode_hex value >>= λ bs. if length bs == len then ok bs else err invalid_data

  unfoldable pub tokenize_bool : Bytes → Result Bool
  tokenize_bool value =
      if text_eq value (text "true") || text_eq value (text "1")
      then ok true
      else if text_eq value (text "false") || text_eq value (text "0")
      then ok false
      else err invalid_data

  unfoldable pub strict_tokenizer : TokenizerMethods
  unfolding decode_hex decode_sized tokenize_bool
  strict_tokenizer = record {
    tokenize_address = λ value. decode_sized value 20;
    tokenize_string = λ value. ok value;
    tokenize_bool = tokenize_bool;
    tokenize_bytes = decode_hex;
    tokenize_fixed_bytes = decode_sized;
    tokenize_uint = λ value. decode_sized value 32;
    tokenize_int = λ value. decode_sized value 32;
  }
