-- ===== src/Tokenizer.antt =====
-- ethabi/src/token/mod.rs: tokens from text.
pub mod Structs
pub mod Strict
pub mod Lenient
pub mod Decimal
pub mod Units
pub mod Powers
pub mod Slices
pub mod Scan
pub mod Typed
pub mod Printed
use ethabi.Base.{
  ℕ, suc, ◌+◌, ◌-◌, Bool, true, false, not, ◌&&◌, ◌||◌, ◌==◌, ltb, leb, if◌then◌else◌, Option, some,
  none, List, [], ◌∷◌, ◌++◌, length, take, drop, get_elem?, Bytes, Result, ok, err, panic,
  invalid_data, ◌>>=◌, ◌>>◌, guard, ok_or, map_ok, text, text_eq, ℤ, pos, negsuc, increment,
  decrement, sign, Ordering,
}
use ethabi.Externs.{Externs}
use ethabi.ParamType.{ParamType, ParamTypes}
use ethabi.Token
use ethabi.Token.{Token, Tokens, push}

-- A byte in which a character of UTF-8 begins.
abbrev pub starts : Bytes → Bool
starts [] = true
starts (b ∷ bs) = ltb b 128 || leb 192 b

-- `value.chars().count()`
abbrev pub count_chars : Bytes → ℕ
count_chars [] = 0
count_chars (b ∷ bs) = if ltb b 128 || leb 192 b then suc (count_chars bs) else count_chars bs

-- `&value[from..to]` of a `str`, whose ends are boundaries of characters.
unfoldable pub str_slice : Bytes → ℕ → ℕ → Result Bytes
str_slice value from to =
    if leb from to
      && (leb to (length value) && (starts (drop from value) && starts (drop to value)))
    then ok (take (to - from) (drop from value))
    else panic

unfoldable pub starts_with : Bytes → ℕ → Bool
starts_with [] c = false
starts_with (b ∷ bs) c = b == c

unfoldable pub ends_with : Bytes → ℕ → Bool
ends_with [] c = false
ends_with (b ∷ []) c = b == c
ends_with (b ∷ d ∷ ds) c = ends_with (d ∷ ds) c

-- `value.strip_prefix("0x").unwrap_or(value)`
unfoldable pub strip_0x : Bytes → Bytes
strip_0x [] = []
strip_0x (b ∷ []) = b ∷ []
strip_0x (b ∷ c ∷ cs) = if (b == b'0') && (c == b'x') then cs else b ∷ c ∷ cs

-- The variables of the loop in `tokenize_array`.
pub record ArrayScan : Type 0 where
  pub result : Tokens
  pub nested : ℤ
  pub ignore : Bool
  pub last_item : ℕ
  pub tuple_nested : ℤ
  pub tuple_item_start : ℕ
  pub last_is_tuple : Bool

abbrev pub array_scan : ArrayScan
array_scan = record {
  result = Token.nil;
  nested = pos 0;
  ignore = false;
  last_item = 1;
  tuple_nested = pos 0;
  tuple_item_start = 1;
  last_is_tuple = false;
}

abbrev pub is_zero_int : ℤ → Bool
is_zero_int i = elim (sign i) [ Ordering.eq ↦ true | _ ↦ false ]

abbrev pub is_one_int : ℤ → Bool
is_one_int i = is_zero_int (decrement i)

module _ (item : Bytes → Result Token) (value : Bytes) where
  -- The token of an item, and what the next item starts behind.
  unfoldable pub end_item : ArrayScan → ℕ → ℤ → Result ArrayScan
  unfolding str_slice
  end_item s i nested = do
    sub ← str_slice value s.last_item i
    token ← item sub
    ok (record s { result = push s.result token; nested = nested; last_item = i + 1 })

  unfoldable pub end_tuple : ArrayScan → ℕ → ℤ → Result ArrayScan
  unfolding str_slice
  end_tuple s i tuple_nested = do
    sub ← str_slice value s.tuple_item_start (i + 1)
    token ← item sub
    ok (record s {
      result = push s.result token;
      tuple_nested = tuple_nested;
      last_is_tuple = not s.last_is_tuple;
    })

  -- One round of the loop, for the character at position `i`.
  unfoldable pub array_step : ArrayScan → ℕ → ℕ → Result ArrayScan
  unfolding end_item end_tuple
  array_step s i ch =
      let inside = is_zero_int s.tuple_nested && (is_one_int s.nested && not s.ignore) in
      if (ch == b'(') && not s.ignore
      then ok (record s {
        tuple_item_start = if is_zero_int s.tuple_nested then i else s.tuple_item_start;
        tuple_nested = increment s.tuple_nested;
      })
      else if (ch == b')') && not s.ignore
      then (let tuple_nested = decrement s.tuple_nested in
          elim (sign tuple_nested) [
            | Ordering.lt ↦ err invalid_data
            | Ordering.eq ↦ end_tuple s i tuple_nested
            | Ordering.gt ↦ ok (record s { tuple_nested = tuple_nested })
          ])
      else if not (is_zero_int s.tuple_nested)
      then ok s
      else if (ch == b'[') && not s.ignore
      then ok (record s { nested = increment s.nested })
      else if (ch == b']') && (not s.ignore && s.last_is_tuple)
      then ok (record s { nested = decrement s.nested; last_is_tuple = not s.last_is_tuple })
      else if (ch == b']') && not s.ignore
      then (let nested = decrement s.nested in
          elim (sign nested) [
            | Ordering.lt ↦ err invalid_data
            | Ordering.eq ↦
                if s.last_is_tuple
                then ok (record s { nested = nested; last_is_tuple = not s.last_is_tuple })
                else end_item s i nested
            | Ordering.gt ↦ ok (record s { nested = nested })
          ])
      else if ch == b'"'
      then ok (record s { ignore = not s.ignore })
      else if (ch == b',') && (inside && s.last_is_tuple)
      then ok (record s { last_is_tuple = not s.last_is_tuple })
      else if (ch == b',') && inside
      then end_item s i s.nested
      else ok s

  -- `for (i, ch) in value.chars().enumerate()`: a byte inside a character is no round of its own,
  -- and every character that is compared is one byte.
  unfoldable pub array_loop : ArrayScan → ℕ → Bytes → Result ArrayScan
  unfolding array_step
  array_loop s i [] = ok s
  array_loop s i (b ∷ bs) =
      if ltb b 128 || leb 192 b
      then (array_step s i b >>= λ s'. array_loop s' (i + 1) bs)
      else array_loop s i bs

  unfoldable pub tokenize_array : Result Tokens
  unfolding array_loop starts_with ends_with
  tokenize_array =
      if not (starts_with value b'[') || not (ends_with value b']')
      then err invalid_data
      else if count_chars value == 2
      then ok Token.nil
      else (array_loop array_scan 0 value >>= λ s.
          if s.ignore then err invalid_data else ok s.result)

unfoldable pub tokenize_fixed_array : (Bytes → Result Token) → Bytes → ℕ → Result Tokens
unfolding tokenize_array
tokenize_fixed_array item value len = do
  result ← tokenize_array item value
  if Token.count result == len then ok result else err invalid_data
