-- ===== src/Tests/Samples.antt =====
-- Stand-ins for the code of other crates, and values that the tests share.
use native.Mathlib.Nat.{pow-suc}
use ethabi.Base.{
  ℕ, zero, suc, ◌+◌, ◌*◌, ◌/◌, ◌%◌, ◌^◌, ◌<◌, ◌≡◌, refl, true, [], ◌∷◌, ◌++◌, length, length-append,
  false, Bytes, arith,
}
use ethabi.Externs.{Externs, IsExterns}
use ethabi.ParamType.{ParamType, ParamTypes}
use ethabi.Utf8.{is_utf8}
use ethabi.Token.Typing.{AreTokens, HaveTypes}
use ethabi.Token.{Tokens, uint, string, array, bool, tuple, fixed_bytes, nil, cons}

abbrev pub to_be : ℕ → ℕ → Bytes
to_be zero v = []
to_be (suc k) v = to_be k (v / 256) ++ (v % 256 ∷ [])

abbrev pub from_be : ℕ → Bytes → ℕ
from_be acc [] = acc
from_be acc (b ∷ bs) = from_be (acc * 256 + b) bs

length-to_be : (k v : ℕ) → length (to_be k v) ≡ k
length-to_be zero v = refl
length-to_be (suc k) v =
    omega (arith, length-append (to_be k (v / 256)) (v % 256 ∷ []), length-to_be k (v / 256))

from_be-append : (acc b : ℕ) (bs : Bytes) → from_be acc (bs ++ (b ∷ [])) ≡ from_be acc bs * 256 + b
from_be-append acc b [] = refl
from_be-append acc b (c ∷ bs) = from_be-append (acc * 256 + c) b bs

from_be-to_be : (k v : ℕ) → v < 256 ^ k → from_be 0 (to_be k v) ≡ v
from_be-to_be zero v h = omega arith
from_be-to_be (suc k) v h =
    let less : v / 256 < 256 ^ k = omega (arith, pow-suc 256 k) in
    rw (from_be-append 0 (v % 256) (to_be k (v / 256)), from_be-to_be k (v / 256) less)
      (omega arith)

-- A hash of 32 bytes that depends on the length alone stands in for Keccak-256.
abbrev pub externs : Externs
externs = record {
  u256_to_word = to_be 32;
  u256_from_word = from_be 0;
  keccak256 = λ bs. to_be 32 (length bs);
  can_reserve = λ _. true;
}

pub externs-IsExterns : IsExterns externs
externs-IsExterns = record {
  length_word = length-to_be 32;
  word_roundtrip = λ v h. from_be-to_be 32 v (omega arith);
  length_digest = λ bs. length-to_be 32 (length bs);
  reserves = λ n h. refl;
}

-- (69, "hi", [true, false]) with its types.
abbrev pub tokens : Tokens
tokens = cons (uint 69) (cons (string (0x68 ∷ 0x69 ∷ [])) (cons (array flags) nil))
  where
    flags : Tokens
    flags = cons (bool true) (cons (bool false) nil)

abbrev pub types : ParamTypes
types = ParamTypes.cons (ParamType.uint 256) (
    ParamTypes.cons ParamType.string
      (ParamTypes.cons (ParamType.array ParamType.bool) ParamTypes.nil))

-- (bytes2, bool) in a tuple, all static.
abbrev pub static_tokens : Tokens
static_tokens = cons (tuple (cons (fixed_bytes (7 ∷ 8 ∷ [])) (cons (bool true) nil))) nil

abbrev pub static_types : ParamTypes
static_types =
    ParamTypes.cons
      (ParamType.tuple
        (ParamTypes.cons (ParamType.fixed_bytes 2) (ParamTypes.cons ParamType.bool ParamTypes.nil)))
      ParamTypes.nil

pub tokens-AreTokens : AreTokens tokens
unfolding is_utf8
tokens-AreTokens = (omega arith, (refl, (((tt, (tt, tt)), omega arith), tt)))

pub tokens-HaveTypes : HaveTypes tokens types
tokens-HaveTypes = (tt, (tt, ((tt, (tt, tt)), tt)))

pub static_tokens-HaveTypes : HaveTypes static_tokens static_types
static_tokens-HaveTypes = ((omega arith, ((refl, omega arith, omega arith), (tt, tt))), tt)
