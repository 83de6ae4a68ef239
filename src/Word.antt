-- ===== src/Word.antt =====
-- Words of 32 bytes and machine integers: ethabi/src/util.rs, and the readers of
-- ethabi/src/decoder.rs that look at one stretch of bytes. `usize` has 64 bits, and arithmetic
-- wraps, as in a release build.
pub mod Laws
pub mod Segments
pub mod Safety
use ethabi.Base.{
  ℕ, ◌+◌, ◌-◌, ◌*◌, ◌/◌, ◌%◌, ◌^◌, Bool, true, false, ◌&&◌, ◌==◌, leb, ltb, if◌then◌else◌, [], ◌∷◌,
  ◌++◌, length, take, drop, replicate, get_or, all, Bytes, Result, ok, err, panic, invalid_data,
  ◌>>=◌, ◌>>◌,
}

-- `a as u32`.
abbrev pub u32 : ℕ → ℕ
u32 a = a % 2 ^ 32

-- `a as usize`, on a sum.
abbrev pub usize : ℕ → ℕ
usize a = a % 2 ^ 64

-- `u32::to_be_bytes`.
abbrev pub be_bytes : ℕ → Bytes
be_bytes v = v / 2 ^ 24 % 256 ∷ v / 2 ^ 16 % 256 ∷ v / 2 ^ 8 % 256 ∷ v % 256 ∷ []

-- A u32 at the right end of a word.
unfoldable pub pad_u32 : ℕ → Bytes
pad_u32 value = replicate 28 0 ++ be_bytes value

-- `&data[lo..hi]`.
unfoldable pub slice : Bytes → ℕ → ℕ → Result Bytes
slice bs lo hi = if leb lo hi && leb hi (length bs) then ok (take (hi - lo) (drop lo bs)) else panic

-- `&data[lo..]`.
unfoldable pub slice_from : Bytes → ℕ → Result Bytes
slice_from bs lo = if leb lo (length bs) then ok (drop lo bs) else panic

-- `data.iter().all(|b| *b == 0)`.
abbrev pub is_zero : ℕ → Bool
is_zero b = b == 0

unfoldable pub check_zeroes : Bytes → Result (Unit {0})
check_zeroes bs = if all is_zero bs then ok tt else err invalid_data

-- The last four bytes of a word as a number; the others must be zero.
unfoldable pub as_usize : Bytes → Result ℕ
as_usize word =
    if all is_zero (take 28 word)
    then ok (
        usize (
          get_or word 28 0 * 2 ^ 24
          + get_or word 29 0 * 2 ^ 16
          + get_or word 30 0 * 2 ^ 8
          + get_or word 31 0))
    else err invalid_data

unfoldable pub as_bool : Bytes → Result Bool
unfolding check_zeroes
as_bool word = check_zeroes (take 31 word) >> ok (get_or word 31 0 == 1)

unfoldable pub peek : Bytes → ℕ → ℕ → Result Bytes
unfolding slice
peek bs offset len =
    if ltb (length bs) (usize (offset + len))
    then err invalid_data
    else slice bs offset (usize (offset + len))

unfoldable pub peek_32_bytes : Bytes → ℕ → Result Bytes
unfolding peek
peek_32_bytes bs offset = peek bs offset 32

-- `usize` subtraction of 1 wraps at 0, and the product wraps too.
unfoldable pub round_up_nearest_multiple : ℕ → ℕ → ℕ
round_up_nearest_multiple value padding =
    usize (usize (usize (value + padding) + 2 ^ 64 - 1) / padding * padding)

-- `len` bytes at `offset`; when validating, the padding up to a multiple of 32 must be zero.
unfoldable pub take_bytes : Bytes → ℕ → ℕ → Bool → Result Bytes
unfolding slice check_zeroes round_up_nearest_multiple
take_bytes bs offset len true =
    let padded_len = round_up_nearest_multiple len 32 in
    if ltb (length bs) (usize (offset + padded_len)) then err invalid_data else do
      padding ← slice bs (usize (offset + len)) (usize (offset + padded_len))
      check_zeroes padding
      slice bs offset (usize (offset + len))
take_bytes bs offset len false =
    if ltb (length bs) (usize (offset + len))
    then err invalid_data
    else slice bs offset (usize (offset + len))
