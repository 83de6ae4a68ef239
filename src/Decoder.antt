-- ===== src/Decoder.antt =====
-- ethabi/src/decoder.rs: bytes to tokens. A frame is the slice that offsets count from.
pub mod Parts
pub mod Blocks
pub mod Reading
pub mod Safety
pub mod Fits
use ethabi.Base.{
  ℕ, zero, suc, ◌+◌, Bool, true, false, not, ◌&&◌, ◌||◌, ◌==◌, ltb, if◌then◌else◌, length, take,
  drop, Bytes, text, Result, Error, ok, invalid_data, invalid_name, ◌>>=◌, ◌>>◌, guard, map_ok,
}
use ethabi.Externs.{Externs}
use ethabi.Word.{usize, slice_from, check_zeroes, as_usize, as_bool, peek_32_bytes, take_bytes}
use ethabi.Utf8.{from_utf8_lossy}
use ethabi.ParamType.{
  ParamType, ParamTypes, address, bytes, int, uint, bool, string, array, fixed_bytes, fixed_array,
  tuple, nil, cons, is_dynamic, any_dynamic, all_empty_valid, count,
}
use ethabi.Token
use ethabi.Token.{Token, Tokens, push}

-- `struct DecodeResult`.
pub record DecodeResult : Type 0 where
  pub token : Token
  pub new_offset : ℕ

-- The text of the error for an empty input.
abbrev pub empty_input : Error
empty_input = invalid_name (
    text
      "please ensure the contract and method you're calling exist! failed to decode empty bytes. if you're using jsonrpc this is likely due to jsonrpc returning `0x` in case contract or method don't exist")

-- `for _ in 0..len` over one type, with the tokens pushed so far.
unfoldable pub decode_times : (ℕ → Result DecodeResult) → ℕ → ℕ → Tokens → Result (Tokens × ℕ)
decode_times f zero offset acc = ok (acc, offset)
decode_times f (suc n) offset acc = do
  r ← f offset
  decode_times f n r.new_offset (push acc r.token)

-- A dynamic fixed array or tuple is read in a frame of its own, a static one where it stands.
unfoldable pub enter_frame : Bool → Bytes → ℕ → Result (Bytes × ℕ)
unfolding as_usize peek_32_bytes slice_from
enter_frame false bs offset = ok (bs, offset)
enter_frame true bs offset = do
  word ← peek_32_bytes bs offset
  start ← as_usize word
  guard (not (ltb (length bs) start)) invalid_data
  tail ← slice_from bs start
  ok (tail, 0)

-- `bytes` and `string`: an offset, and a length there with the bytes behind it.
unfoldable pub decode_dynamic_bytes : Bytes → ℕ → Bool → Result Bytes
unfolding as_usize peek_32_bytes take_bytes
decode_dynamic_bytes bs offset validate = do
  word ← peek_32_bytes bs offset
  dynamic_offset ← as_usize word
  len_word ← peek_32_bytes bs dynamic_offset
  len ← as_usize len_word
  take_bytes bs (usize (dynamic_offset + 32)) len validate

-- The length of a dynamic array and the frame of its items.
unfoldable pub enter_array : Bytes → ℕ → Result (ℕ × Bytes)
unfolding as_usize peek_32_bytes slice_from
enter_array bs offset = do
  word ← peek_32_bytes bs offset
  len_offset ← as_usize word
  len_word ← peek_32_bytes bs len_offset
  len ← as_usize len_word
  tail ← slice_from bs (usize (len_offset + 32))
  ok (len, tail)

-- The offset behind a fixed array or tuple: behind its offset word, or behind its last part.
abbrev pub after : Bool → ℕ → ℕ → ℕ
after dynamic offset inner = if dynamic then usize (offset + 32) else inner

-- `check_zeroes(&slice[..12])?` under `if validate`.
unfoldable pub check_address : Bool → Bytes → Result (Unit {0})
unfolding check_zeroes
check_address validate word = if validate then check_zeroes (take 12 word) else ok tt

module _ (x : Externs) where
  unfoldable mutual
    pub decode_param : ParamType → Bytes → ℕ → Bool → Result DecodeResult
    decode_param address bs offset validate = do
      word ← peek_32_bytes bs offset
      check_address validate word
      ok (record { token = Token.address (drop 12 word); new_offset = usize (offset + 32) })
    decode_param (int n) bs offset validate = do
      word ← peek_32_bytes bs offset
      ok (record { token = Token.int (x.u256_from_word word); new_offset = usize (offset + 32) })
    decode_param (uint n) bs offset validate = do
      word ← peek_32_bytes bs offset
      ok (record { token = Token.uint (x.u256_from_word word); new_offset = usize (offset + 32) })
    decode_param bool bs offset validate = do
      word ← peek_32_bytes bs offset
      b ← as_bool word
      ok (record { token = Token.bool b; new_offset = usize (offset + 32) })
    decode_param (fixed_bytes len) bs offset validate = do
      taken ← take_bytes bs offset len validate
      ok (record { token = Token.fixed_bytes taken; new_offset = usize (offset + 32) })
    decode_param bytes bs offset validate = do
      taken ← decode_dynamic_bytes bs offset validate
      ok (record { token = Token.bytes taken; new_offset = usize (offset + 32) })
    decode_param string bs offset validate = do
      taken ← decode_dynamic_bytes bs offset validate
      ok (record { token = Token.string (from_utf8_lossy taken); new_offset = usize (offset + 32) })
    decode_param (array t) bs offset validate = do
      (len, tail) ← enter_array bs offset
      guard (x.can_reserve len) invalid_data
      (tokens, _) ← decode_times (λ o. decode_param t tail o validate) len 0 Token.nil
      ok (record { token = Token.array tokens; new_offset = usize (offset + 32) })
    decode_param (fixed_array t len) bs offset validate = do
      (tail, start) ← enter_frame (is_dynamic t) bs offset
      guard (x.can_reserve len) invalid_data
      (tokens, inner) ← decode_times (λ o. decode_param t tail o validate) len start Token.nil
      ok (record {
        token = Token.fixed_array tokens;
        new_offset = after (is_dynamic t) offset inner;
      })
    decode_param (tuple ts) bs offset validate = do
      (tail, start) ← enter_frame (any_dynamic ts) bs offset
      (tokens, inner) ← decode_each ts tail start validate Token.nil
      ok (record { token = Token.tuple tokens; new_offset = after (any_dynamic ts) offset inner })

    -- `for param in types`, with the tokens pushed so far.
    pub decode_each : ParamTypes → Bytes → ℕ → Bool → Tokens → Result (Tokens × ℕ)
    decode_each nil bs offset validate acc = ok (acc, offset)
    decode_each (cons t ts) bs offset validate acc = do
      r ← decode_param t bs offset validate
      decode_each ts bs r.new_offset validate (push acc r.token)

  unfoldable pub decode_impl : ParamTypes → Bytes → Bool → Result (Tokens × ℕ)
  unfolding decode_param
  decode_impl types bs validate = do
    guard (all_empty_valid types || not (length bs == 0)) empty_input
    guard (x.can_reserve (count types)) invalid_data
    (tokens, offset) ← decode_each types bs 0 validate Token.nil
    guard (not (validate && not (offset == length bs))) invalid_data
    ok (tokens, offset)

  -- Decodes, and checks that the input holds nothing else.
  unfoldable pub decode_validate : ParamTypes → Bytes → Result Tokens
  unfolding decode_impl
  decode_validate types bs = map_ok (λ r. r.0) (decode_impl types bs true)

  unfoldable pub decode : ParamTypes → Bytes → Result Tokens
  unfolding decode_impl
  decode types bs = map_ok (λ r. r.0) (decode_impl types bs false)
