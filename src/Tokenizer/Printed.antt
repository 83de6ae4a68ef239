-- ===== src/Tokenizer/Printed.antt =====
-- `tokenize` (ethabi/src/token/mod.rs) on what `Display` (ethabi/src/token/token.rs) prints.
use ethabi.Base.{◌≤◌, ◌≡◌, refl, ap, [], ◌++◌, All, length, Bytes, Result, ok, map_ok, text, join}
use ethabi.Externs.{Externs}
use ethabi.ParamType.{ParamType}
use ethabi.Token.{Token, Tokens, nil, cons}
use ethabi.Token.Conversions.{Printers, display, display_all}
use ethabi.Tokenizer.{tokenize_array}
use ethabi.Tokenizer.Structs.{TokenizerMethods, tokenize}
use ethabi.Tokenizer.Scan.{IsPlain, tokens_of, tokenize_array-join}

empty_array :
    (item : Bytes → Result Token)
    → tokenize_array item (text "[" ++ (join (text ",") [] ++ text "]")) ≡ ok nil
unfolding tokenize_array join
empty_array item = refl

module _ (printers : Printers) (x : Externs) (self : TokenizerMethods) where
  -- Each token is printed as a plain word, not empty, that is read back as the token.
  abbrev pub AreWords : ParamType → Tokens → Type 0
  AreWords p nil = Unit {0}
  AreWords p (cons t ts) =
      (IsPlain (display printers t)
        × (1 ≤ length (display printers t))
        × (tokenize x self p (display printers t) ≡ ok t))
      × AreWords p ts

  tokens_of-display_all :
      (p : ParamType) (ts : Tokens)
      → AreWords p ts
      → tokens_of (tokenize x self p) (display_all printers ts) ≡ ok ts
  unfolding display
  tokens_of-display_all p nil h = refl
  tokens_of-display_all p (cons t ts) h = rw (h.0.2, tokens_of-display_all p ts h.1)

  display_all-IsPlain :
      (p : ParamType) (ts : Tokens) → AreWords p ts → All IsPlain (display_all printers ts)
  unfolding display
  display_all-IsPlain p nil h = tt
  display_all-IsPlain p (cons t ts) h = (h.0.0, display_all-IsPlain p ts h.1)

  printed_array :
      (p : ParamType) (ts : Tokens)
      → AreWords p ts
      → tokenize_array
          (tokenize x self p)
          (text "[" ++ (join (text ",") (display_all printers ts) ++ text "]"))
        ≡ ok ts
  unfolding display
  printed_array p nil h = empty_array (tokenize x self p)
  printed_array p (cons t ts) h =
      rw
        (tokenize_array-join (tokenize x self p) (display printers t) (display_all printers ts)
          (display_all-IsPlain p (cons t ts) h) h.0.1)
        (tokens_of-display_all p (cons t ts) h)

-- For a tokenizer that reads the printed form of each item back as that item, where that form is
-- not empty and has no bracket, quote, comma or byte outside ASCII, the printed form of the array of
-- the items is read back as the array.
pub tokenize-display :
    (printers : Printers) (x : Externs) (self : TokenizerMethods) (p : ParamType) (ts : Tokens)
    → AreWords printers x self p ts
    → tokenize x self (ParamType.array p) (display printers (Token.array ts)) ≡ ok (Token.array ts)
unfolding tokenize display
tokenize-display printers x self p ts h =
    ap (map_ok Token.array) (printed_array printers x self p ts h)
