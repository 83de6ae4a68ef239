-- ===== src/Encoder.antt =====
-- ethabi/src/encoder.rs: tokens to words. Lengths are `u32`s that wrap, as in a release build.
pub mod Spec
pub mod Sizes
pub mod FixedBytes
pub mod Lengths
pub mod Positive
pub mod Refines
use ethabi.Base.{
  ℕ, zero, suc, ◌+◌, ◌-◌, ◌*◌, ◌/◌, ◌%◌, ◌==◌, if◌then◌else◌, List, [], ◌∷◌, ◌++◌, flatten, length,
  take, drop, replicate, Bytes, Result, ok, panic, ◌>>=◌,
}
use ethabi.Externs.{Externs}
use ethabi.Word.{u32, pad_u32}
use ethabi.Token.{
  Token, Tokens, address, fixed_bytes, bytes, int, uint, bool, string, fixed_array, array, tuple,
  any_dynamic,
}

abbrev pub Words : Type 0
Words = List Bytes

-- "+ 1" because len is also appended
unfoldable pub pad_bytes_len : Bytes → ℕ
pad_bytes_len bs = u32 (u32 ((length bs + 31) / 32) + 1)

unfoldable pub fixed_bytes_len : Bytes → ℕ
fixed_bytes_len bs = u32 ((length bs + 31) / 32)

-- How many bytes the round `i` of `len` copies.
unfoldable pub to_copy : Bytes → ℕ → ℕ → ℕ
to_copy bs len i = if i == len - 1 then (if length bs % 32 == 0 then 32 else length bs % 32) else 32

-- `for i in 0..len`, with the rounds left.
unfoldable pub fixed_bytes_loop : Bytes → ℕ → ℕ → ℕ → Words → Words
unfolding to_copy
fixed_bytes_loop bs len zero i result = result
fixed_bytes_loop bs len (suc rounds) i result =
    let n = to_copy bs len i in
    let padded = take n (drop (32 * i) bs) ++ replicate (32 - n) 0 in
    fixed_bytes_loop bs len rounds (i + 1) (result ++ (padded ∷ []))

unfoldable pub fixed_bytes_append : Words → Bytes → Words
unfolding fixed_bytes_loop
fixed_bytes_append result bs =
    let len = (length bs + 31) / 32 in fixed_bytes_loop bs len len 0 result

unfoldable pub pad_bytes_append : Words → Bytes → Words
unfolding fixed_bytes_append
pad_bytes_append acc bs = fixed_bytes_append (acc ++ (pad_u32 (u32 (length bs)) ∷ [])) bs

-- `enum Mediate`; `Mediates` is `Vec<Mediate>`.
mutual
  pub data Mediate : Type 0 where
    raw : ℕ → Token → Mediate
    raw_array : Mediates → Mediate
    prefixed : ℕ → Token → Mediate
    prefixed_array : Mediates → Mediate
    prefixed_array_with_length : Mediates → Mediate

  pub data Mediates : Type 0 where
    nil : Mediates
    cons : Mediate → Mediates → Mediates

-- `mediates.len()`
abbrev pub count : Mediates → ℕ
count nil = 0
count (cons m ms) = suc (count ms)

unfoldable mutual
  pub head_len : Mediate → ℕ
  head_len (raw len t) = u32 (32 * len)
  head_len (raw_array ms) = heads_len 0 ms
  head_len (prefixed len t) = 32
  head_len (prefixed_array ms) = 32
  head_len (prefixed_array_with_length ms) = 32

  -- `fold(acc, |acc, m| acc + m.head_len())`
  pub heads_len : ℕ → Mediates → ℕ
  heads_len acc nil = acc
  heads_len acc (cons m ms) = heads_len (u32 (acc + head_len m)) ms

unfoldable mutual
  unfolding head_len

  pub tail_len : Mediate → ℕ
  tail_len (raw len t) = 0
  tail_len (raw_array ms) = 0
  tail_len (prefixed len t) = u32 (32 * len)
  tail_len (prefixed_array ms) = parts_len 0 ms
  tail_len (prefixed_array_with_length ms) = parts_len 32 ms

  -- `fold(acc, |acc, m| acc + m.head_len() + m.tail_len())`
  pub parts_len : ℕ → Mediates → ℕ
  parts_len acc nil = acc
  parts_len acc (cons m ms) = parts_len (u32 (u32 (acc + head_len m) + tail_len m)) ms

unfoldable mutual
  pub mediate_token : Token → Mediate
  mediate_token (address a) = raw 1 (address a)
  mediate_token (bytes bs) = prefixed (pad_bytes_len bs) (bytes bs)
  mediate_token (string s) = prefixed (pad_bytes_len s) (string s)
  mediate_token (fixed_bytes bs) = raw (fixed_bytes_len bs) (fixed_bytes bs)
  mediate_token (int v) = raw 1 (int v)
  mediate_token (uint v) = raw 1 (uint v)
  mediate_token (bool b) = raw 1 (bool b)
  mediate_token (array ts) = prefixed_array_with_length (mediate_all ts)
  mediate_token (fixed_array ts) =
      let ms = mediate_all ts in if any_dynamic ts then prefixed_array ms else raw_array ms
  mediate_token (tuple ts) =
      let ms = mediate_all ts in if any_dynamic ts then prefixed_array ms else raw_array ms

  -- `tokens.iter().map(mediate_token).collect()`
  pub mediate_all : Tokens → Mediates
  mediate_all Tokens.nil = nil
  mediate_all (Tokens.cons t ts) = cons (mediate_token t) (mediate_all ts)

module _ (x : Externs) where
  -- The word of a value that has one; a nested token is a panic.
  unfoldable pub encode_token_append : Words → Token → Result Words
  unfolding pad_bytes_append
  encode_token_append acc (address a) = ok (acc ++ ((replicate 12 0 ++ a) ∷ []))
  encode_token_append acc (bytes bs) = ok (pad_bytes_append acc bs)
  encode_token_append acc (string s) = ok (pad_bytes_append acc s)
  encode_token_append acc (fixed_bytes bs) = ok (fixed_bytes_append acc bs)
  encode_token_append acc (int v) = ok (acc ++ (x.u256_to_word v ∷ []))
  encode_token_append acc (uint v) = ok (acc ++ (x.u256_to_word v ∷ []))
  encode_token_append acc (bool b) =
      ok (acc ++ ((replicate 31 0 ++ ((if b then 1 else 0) ∷ [])) ∷ []))
  encode_token_append acc _ = panic

  unfoldable mutual
    unfolding encode_token_append

    pub head_append : Words → Mediate → ℕ → Result Words
    head_append acc (raw len t) suffix_offset = encode_token_append acc t
    head_append acc (raw_array ms) suffix_offset = raw_heads_append acc ms
    head_append acc (prefixed len t) suffix_offset = ok (acc ++ (pad_u32 suffix_offset ∷ []))
    head_append acc (prefixed_array ms) suffix_offset = ok (acc ++ (pad_u32 suffix_offset ∷ []))
    head_append acc (prefixed_array_with_length ms) suffix_offset =
        ok (acc ++ (pad_u32 suffix_offset ∷ []))

    -- `raw.iter().for_each(|mediate| mediate.head_append(acc, 0))`
    pub raw_heads_append : Words → Mediates → Result Words
    raw_heads_append acc nil = ok acc
    raw_heads_append acc (cons m ms) = do acc' ← head_append acc m 0; raw_heads_append acc' ms

  -- `for mediate in mediates`, with the running offset.
  unfoldable pub heads_append : Words → Mediates → ℕ → Result Words
  unfolding head_append tail_len
  heads_append acc nil offset = ok acc
  heads_append acc (cons m ms) offset = do
    acc' ← head_append acc m offset
    heads_append acc' ms (u32 (offset + tail_len m))

  -- The heads, and then what appends the tails.
  unfoldable pub head_tail_with : (Words → Result Words) → Words → Mediates → Result Words
  unfolding heads_append head_len
  head_tail_with tails acc ms = do acc' ← heads_append acc ms (heads_len 0 ms); tails acc'

  unfoldable mutual
    unfolding head_tail_with

    pub tail_append : Words → Mediate → Result Words
    tail_append acc (raw len t) = ok acc
    tail_append acc (raw_array ms) = ok acc
    tail_append acc (prefixed len t) = encode_token_append acc t
    tail_append acc (prefixed_array ms) = head_tail_with (λ a. tails_append a ms) acc ms
    tail_append acc (prefixed_array_with_length ms) =
        head_tail_with (λ a. tails_append a ms) (acc ++ (pad_u32 (u32 (count ms)) ∷ [])) ms

    -- `mediates.iter().for_each(|m| m.tail_append(acc))`
    pub tails_append : Words → Mediates → Result Words
    tails_append acc nil = ok acc
    tails_append acc (cons m ms) = do acc' ← tail_append acc m; tails_append acc' ms

  unfoldable pub encode_head_tail_append : Words → Mediates → Result Words
  unfolding tail_append
  encode_head_tail_append acc ms = head_tail_with (λ a. tails_append a ms) acc ms

  -- Its reservation of room is left out: the lengths there only size the buffer.
  unfoldable pub encode_head_tail : Mediates → Result Words
  unfolding encode_head_tail_append
  encode_head_tail ms = encode_head_tail_append [] ms

  unfoldable pub encode : Tokens → Result Bytes
  unfolding encode_head_tail mediate_token
  encode tokens = do words ← encode_head_tail (mediate_all tokens); ok (flatten words)
