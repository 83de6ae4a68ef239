-- ===== src/Encoder/Spec.antt =====
-- The encoding as the ABI specification describes it, over bytes and unbounded numbers: each
-- token has a head and a tail; a dynamic token's head is the offset of its tail.
use ethabi.Base.{ℕ, ◌+◌, ◌*◌, ◌/◌, if◌then◌else◌, [], ◌∷◌, ◌++◌, length, replicate, Bytes}
use ethabi.Externs.{Externs}
use ethabi.Word.{pad_u32}
use ethabi.Word.Segments.{padded}
use ethabi.Token.{
  Token, Tokens, address, fixed_bytes, bytes, int, uint, bool, string, fixed_array, array, tuple,
  nil, cons, count, is_dynamic, any_dynamic,
}

unfoldable mutual
  unfolding is_dynamic

  -- The bytes of the head.
  pub head_size : Token → ℕ
  head_size (fixed_bytes bs) = (length bs + 31) / 32 * 32
  head_size (fixed_array ts) = let inner = heads_size ts in if any_dynamic ts then 32 else inner
  head_size (tuple ts) = let inner = heads_size ts in if any_dynamic ts then 32 else inner
  head_size _ = 32

  pub heads_size : Tokens → ℕ
  heads_size nil = 0
  heads_size (cons t ts) = head_size t + heads_size ts

module _ (x : Externs) where
  unfoldable mutual
    -- The encoding of a static token; that of a dynamic one is in its tail.
    pub static_part : Token → Bytes
    static_part (address a) = replicate 12 0 ++ a
    static_part (fixed_bytes bs) = padded bs
    static_part (int v) = x.u256_to_word v
    static_part (uint v) = x.u256_to_word v
    static_part (bool b) = replicate 31 0 ++ ((if b then 1 else 0) ∷ [])
    static_part (fixed_array ts) = static_parts ts
    static_part (tuple ts) = static_parts ts
    static_part _ = []

    pub static_parts : Tokens → Bytes
    static_parts nil = []
    static_parts (cons t ts) = static_part t ++ static_parts ts

  unfoldable pub head : Token → ℕ → Bytes
  unfolding static_part
  head t offset = if is_dynamic t then pad_u32 offset else static_part t

  unfoldable mutual
    unfolding head head_size

    pub tail : Token → Bytes
    tail (bytes bs) = pad_u32 (length bs) ++ padded bs
    tail (string s) = pad_u32 (length s) ++ padded s
    tail (array ts) = pad_u32 (count ts) ++ (heads ts (heads_size ts) ++ tails ts)
    tail (fixed_array ts) =
        let block = heads ts (heads_size ts) ++ tails ts in if any_dynamic ts then block else []
    tail (tuple ts) =
        let block = heads ts (heads_size ts) ++ tails ts in if any_dynamic ts then block else []
    tail _ = []

    -- The heads, where the first tail stands at `offset`.
    pub heads : Tokens → ℕ → Bytes
    heads nil offset = []
    heads (cons t ts) offset = head t offset ++ heads ts (offset + length (tail t))

    pub tails : Tokens → Bytes
    tails nil = []
    tails (cons t ts) = tail t ++ tails ts

  -- The heads of all tokens, and then their tails.
  unfoldable pub encoding : Tokens → Bytes
  unfolding tail
  encoding ts = heads ts (heads_size ts) ++ tails ts
