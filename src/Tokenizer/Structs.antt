-- ===== src/Tokenizer/Structs.antt =====
-- ethabi/src/token/mod.rs: tuples from text, and `tokenize` itself.
use ethabi.Base.{
  ℕ, ◌+◌, Bool, false, not, ◌&&◌, ◌||◌, ◌==◌, ltb, leb, if◌then◌else◌, List, [], ◌∷◌, Bytes, Result,
  ok, err, invalid_data, ◌>>=◌, map_ok, ℤ, pos, increment, decrement, sign, Ordering,
}
use ethabi.Externs.{Externs}
use ethabi.ParamType.{ParamType, ParamTypes}
use ethabi.Token
use ethabi.Token.{Token, Tokens, push}
use ethabi.Tokenizer.{
  count_chars, str_slice, starts_with, ends_with, strip_0x, is_zero_int, is_one_int, tokenize_array,
  tokenize_fixed_array,
}

-- The variables of the loop in `tokenize_struct`. An item of `params` is `tokenize` at the type
-- of a field.
pub record StructScan : Type 0 where
  pub result : Tokens
  pub nested : ℤ
  pub ignore : Bool
  pub last_item : ℕ
  pub array_nested : ℤ
  pub array_item_start : ℕ
  pub last_is_array : Bool
  pub params : List (Bytes → Result Token)

module _ (value : Bytes) where
  -- `tokenize(params.next().ok_or(Error::InvalidData)?, sub)`
  unfoldable pub next_field : StructScan → Bytes → Result StructScan
  next_field s sub = elim s.params [
    | [] ↦ err invalid_data
    | item ∷ items ↦
        item sub >>= λ token. ok (record s { result = push s.result token; params = items })
  ]

  unfoldable pub end_field : StructScan → ℕ → ℤ → Result StructScan
  unfolding next_field str_slice
  end_field s i nested = do
    sub ← str_slice value s.last_item i
    s' ← next_field s sub
    ok (record s' { nested = nested; last_item = i + 1 })

  unfoldable pub end_array : StructScan → ℕ → ℤ → Result StructScan
  unfolding next_field str_slice
  end_array s i array_nested = do
    sub ← str_slice value s.array_item_start (i + 1)
    s' ← next_field s sub
    ok (record s' { array_nested = array_nested; last_is_array = not s.last_is_array })

  -- One round of the loop, for the character at position `i`.
  unfoldable pub struct_step : StructScan → ℕ → ℕ → Result StructScan
  unfolding end_field end_array
  struct_step s i ch =
      let inside = is_one_int s.nested && not s.ignore in
      if (ch == b'[') && not s.ignore
      then ok (record s {
        array_item_start = if is_zero_int s.array_nested then i else s.array_item_start;
        array_nested = increment s.array_nested;
      })
      else if (ch == b']') && not s.ignore
      then (let array_nested = decrement s.array_nested in
          elim (sign s.nested) [
            | Ordering.gt ↦ ok (record s { array_nested = array_nested })
            | _ ↦ elim (sign array_nested) [
              | Ordering.lt ↦ err invalid_data
              | Ordering.eq ↦ end_array s i array_nested
              | Ordering.gt ↦ ok (record s { array_nested = array_nested })
            ]
          ])
      else if not (is_zero_int s.array_nested)
      then ok s
      else if (ch == b'(') && not s.ignore
      then ok (record s { nested = increment s.nested })
      else if (ch == b')') && (not s.ignore && s.last_is_array)
      then ok (record s { nested = decrement s.nested; last_is_array = not s.last_is_array })
      else if (ch == b')') && not s.ignore
      then (let nested = decrement s.nested in
          elim (sign nested) [
            | Ordering.lt ↦ err invalid_data
            | Ordering.eq ↦
                if s.last_is_array
                then ok (record s { nested = nested; last_is_array = not s.last_is_array })
                else end_field s i nested
            | Ordering.gt ↦ ok (record s { nested = nested })
          ])
      else if ch == b'"'
      then ok (record s { ignore = not s.ignore })
      else if (ch == b',') && (is_zero_int s.array_nested && (inside && s.last_is_array))
      then ok (record s { last_is_array = not s.last_is_array })
      else if (ch == b',') && inside
      then end_field s i s.nested
      else ok s

  unfoldable pub struct_loop : StructScan → ℕ → Bytes → Result StructScan
  unfolding struct_step
  struct_loop s i [] = ok s
  struct_loop s i (b ∷ bs) =
      if ltb b 128 || leb 192 b
      then (struct_step s i b >>= λ s'. struct_loop s' (i + 1) bs)
      else struct_loop s i bs

  unfoldable pub tokenize_struct : List (Bytes → Result Token) → Result Tokens
  unfolding struct_loop starts_with ends_with
  tokenize_struct params =
      if not (starts_with value b'(') || not (ends_with value b')')
      then err invalid_data
      else if count_chars value == 2
      then ok Token.nil
      else (struct_loop
            (record {
              result = Token.nil;
              nested = pos 0;
              ignore = false;
              last_item = 1;
              array_nested = pos 0;
              array_item_start = 1;
              last_is_array = false;
              params = params;
            })
            0 value
          >>= λ s. if s.ignore then err invalid_data else ok s.result)

-- The methods that an implementation of the trait supplies.
pub record TokenizerMethods : Type 0 where
  pub tokenize_address : Bytes → Result Bytes
  pub tokenize_string : Bytes → Result Bytes
  pub tokenize_bool : Bytes → Result Bool
  pub tokenize_bytes : Bytes → Result Bytes
  pub tokenize_fixed_bytes : Bytes → ℕ → Result Bytes
  pub tokenize_uint : Bytes → Result Bytes
  pub tokenize_int : Bytes → Result Bytes

module _ (x : Externs) (self : TokenizerMethods) where
  unfoldable mutual
    unfolding tokenize_array tokenize_fixed_array tokenize_struct strip_0x

    pub tokenize : ParamType → Bytes → Result Token
    tokenize ParamType.address value = map_ok Token.address (self.tokenize_address (strip_0x value))
    tokenize ParamType.string value = map_ok Token.string (self.tokenize_string value)
    tokenize ParamType.bool value = map_ok Token.bool (self.tokenize_bool value)
    tokenize ParamType.bytes value = map_ok Token.bytes (self.tokenize_bytes (strip_0x value))
    tokenize (ParamType.fixed_bytes len) value =
        map_ok Token.fixed_bytes (self.tokenize_fixed_bytes (strip_0x value) len)
    tokenize (ParamType.uint n) value =
        map_ok (λ w. Token.uint (x.u256_from_word w)) (self.tokenize_uint value)
    tokenize (ParamType.int n) value =
        map_ok (λ w. Token.int (x.u256_from_word w)) (self.tokenize_int value)
    tokenize (ParamType.array p) value = map_ok Token.array (tokenize_array (tokenize p) value)
    tokenize (ParamType.fixed_array p len) value =
        map_ok Token.fixed_array (tokenize_fixed_array (tokenize p) value len)
    tokenize (ParamType.tuple ps) value =
        map_ok Token.tuple (tokenize_struct value (tokenize_all ps))

    -- `tokenize` at each type of a tuple.
    pub tokenize_all : ParamTypes → List (Bytes → Result Token)
    tokenize_all ParamTypes.nil = []
    tokenize_all (ParamTypes.cons p ps) = tokenize p ∷ tokenize_all ps
