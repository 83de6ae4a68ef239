-- ===== src/Word/Laws.antt =====
-- What the words of ethabi/src/util.rs hold, and how the decoder's readers see them.
use ethabi.Base.{
  ℕ, zero, suc, ◌+◌, ◌*◌, ◌/◌, ◌%◌, ◌^◌, ◌<◌, ◌≡◌, refl, ap, Bool, true, false, if◌then◌else◌, [],
  ◌∷◌, ◌++◌, length, replicate, all, ok, arith,
}
use ethabi.Word.{pad_u32, as_usize, as_bool, check_zeroes, is_zero, usize}

pub length-pad_u32 : (v : ℕ) → length (pad_u32 v) ≡ 32
unfolding pad_u32
length-pad_u32 v = refl

be_bytes_value :
    (v : ℕ)
    → v < 2 ^ 32
    → usize
        (v / 2 ^ 24 % 256 * 2 ^ 24 + v / 2 ^ 16 % 256 * 2 ^ 16 + v / 2 ^ 8 % 256 * 2 ^ 8 + v % 256)
      ≡ v
be_bytes_value v h = omega arith

-- Reading back a number of 32 bits.
pub as_usize-pad_u32 : (v : ℕ) → v < 2 ^ 32 → as_usize (pad_u32 v) ≡ ok v
unfolding as_usize pad_u32
as_usize-pad_u32 v h = ap ok (be_bytes_value v h)

pub all_zero-replicate : (n : ℕ) → all is_zero (replicate n 0) ≡ true
all_zero-replicate zero = refl
all_zero-replicate (suc n) = all_zero-replicate n

pub check_zeroes-replicate : (n : ℕ) → check_zeroes (replicate n 0) ≡ ok tt
unfolding check_zeroes
check_zeroes-replicate n = ground (arith, all_zero-replicate n)

pub as_bool-word : (b : Bool) → as_bool (replicate 31 0 ++ ((if b then 1 else 0) ∷ [])) ≡ ok b
unfolding as_bool
as_bool-word true = refl
as_bool-word false = refl
