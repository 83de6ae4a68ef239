-- ===== src/Externs.antt =====
-- The code of other crates that ethabi calls, as parameters of the model: `U256`'s conversions
-- (ethereum-types), Keccak-256 (sha3) and the allocator behind `try_reserve_exact`.
use ethabi.Base.{ℕ, ◌^◌, ◌<◌, ◌≡◌, Bool, true, length, Bytes}

pub record Externs : Type 0 where
  -- `From<U256> for [u8; 32]` and back: big-endian. A `U256` is its value.
  pub u256_to_word : ℕ → Bytes
  pub u256_from_word : Bytes → ℕ
  -- `Keccak256::digest`.
  pub keccak256 : Bytes → Bytes
  -- Whether `Vec::try_reserve_exact` gets room for this many elements.
  pub can_reserve : ℕ → Bool

-- What the callers rely on.
pub record IsExterns (x : Externs) : Type 0 where
  -- A word has 32 bytes, and holds every 256-bit value.
  pub length_word : (v : ℕ) → length (x.u256_to_word v) ≡ 32
  pub word_roundtrip : (v : ℕ) → v < 2 ^ 256 → x.u256_from_word (x.u256_to_word v) ≡ v
  -- A digest has 32 bytes.
  pub length_digest : (bs : Bytes) → length (x.keccak256 bs) ≡ 32
  -- The allocator gives room for anything that can be indexed by 32 bits.
  pub reserves : (n : ℕ) → n < 2 ^ 32 → x.can_reserve n ≡ true
