-- ===== src/ParamType/Reader/Brackets.antt =====
-- The sizes in the brackets of an array type's name (ethabi/src/param_type/reader.rs).
use native.Mathlib.Nat.{zero-add, pow-suc}
use ethabi.Base.{
  ℕ, zero, suc, ◌+◌, ◌-◌, ◌/◌, ◌%◌, ◌^◌, ◌≤◌, ◌<◌, ◌≡◌, refl, sym, ◌∙◌, ◌⊎◌, inl, inr, false, ◌==◌,
  ltb, [], ◌∷◌, ◌++◌, length, All, All-append, All-weaken, Bytes, Result, ok, digits, decimal,
  append_assoc, append-nil, Bool-cases, arith, length-append_bytes,
}
use ethabi.ParamType.{ParamType}
use ethabi.Tokenizer.{count_chars, str_slice, ends_with}
use ethabi.Tokenizer.Slices.{str_slice-append, count_chars-ascii, IsAscii}
use ethabi.ParamType.Reader.{number_part, front}

abbrev pub IsDigit : ℕ → Type 0
IsDigit b = (48 ≤ b) × (b ≤ 57)

pub digits-AreDigits :
    (rounds n : ℕ)
    → n < 10 ^ suc rounds
    → All IsDigit (digits rounds n) × (1 ≤ length (digits rounds n))
unfolding digits
digits-AreDigits zero n h = (((omega arith, omega arith), tt), omega arith)
digits-AreDigits (suc rounds) n h = elim (Bool-cases (ltb n 10)) [
  | inl e ↦ rw e (((omega arith, ground arith), tt), omega arith)
  | inr e ↦
      let less : n / 10 < 10 ^ suc rounds = omega (arith, pow-suc 10 (suc rounds)) in
      let rest = digits-AreDigits rounds (n / 10) less in
      rw e (
        All-append IsDigit (digits rounds (n / 10)) ((48 + n % 10) ∷ []) rest.0
            ((omega arith, omega arith), tt),
        omega (arith, length-append_bytes (digits rounds (n / 10)) ((48 + n % 10) ∷ [])),
      )
]

pub decimal-AreDigits : (n : ℕ) → n < 2 ^ 64 → All IsDigit (decimal n) × (1 ≤ length (decimal n))
unfolding decimal
decimal-AreDigits n h = digits-AreDigits 19 n (omega arith)

pub digits-IsAscii : (ds : Bytes) → All IsDigit ds → IsAscii ds
digits-IsAscii ds h = All-weaken ds h λ b k. omega arith

-- A digit is neither a parenthesis nor a bracket.
pub ends_with-digits :
    (bs ds : Bytes) (c : ℕ)
    → 1 ≤ length ds
    → All IsDigit ds
    → (c < 48) ⊎ (57 < c)
    → ends_with (bs ++ ds) c ≡ false
unfolding ends_with
ends_with-digits [] [] c s h k = absurd (omega arith)
ends_with-digits [] (d ∷ []) c s h (inl k) = ground arith
ends_with-digits [] (d ∷ []) c s h (inr k) = ground arith
ends_with-digits [] (d ∷ e ∷ ds) c s h k = ends_with-digits [] (e ∷ ds) c (omega arith) h.1 k
ends_with-digits (b ∷ []) [] c s h k = absurd (omega arith)
ends_with-digits (b ∷ []) (d ∷ ds) c s h k = ends_with-digits [] (d ∷ ds) c s h k
ends_with-digits (b ∷ b' ∷ bs) ds c s h k = ends_with-digits (b' ∷ bs) ds c s h k

-- The last character is not among the word, which is not empty.
pub ends_with-last : (bs : Bytes) (b c : ℕ) → ends_with (bs ++ (b ∷ [])) c ≡ (b == c)
unfolding ends_with
ends_with-last [] b c = refl
ends_with-last (a ∷ []) b c = refl
ends_with-last (a ∷ d ∷ ds) b c = ends_with-last (d ∷ ds) b c

pub number_part-digits :
    (acc ds : Bytes) → All IsDigit ds → number_part acc (ds ++ (b']' ∷ [])) ≡ acc ++ ds
unfolding number_part
number_part-digits acc [] h = sym (append-nil acc)
number_part-digits acc (d ∷ []) h = let no : (d == b'[') ≡ false = ground arith in rw no
number_part-digits acc (d ∷ e ∷ ds) h =
    let no : (d == b'[') ≡ false = ground arith in
    rw no (number_part-digits (acc ++ (d ∷ [])) (e ∷ ds) h.1 ∙ append_assoc acc (d ∷ []) (e ∷ ds))

pub number_part-bracket :
    (acc w : Bytes) (c : ℕ) (cs : Bytes)
    → number_part acc (w ++ (b'[' ∷ c ∷ cs)) ≡ number_part [] (c ∷ cs)
unfolding number_part
number_part-bracket acc [] c cs = refl
number_part-bracket acc (b ∷ []) c cs = elim (Bool-cases (b == b'[')) [
  | inl e ↦ rw e
  | inr e ↦ rw e
]
number_part-bracket acc (b ∷ d ∷ w) c cs = elim (Bool-cases (b == b'[')) [
  | inl e ↦ rw e (number_part-bracket [] (d ∷ w) c cs)
  | inr e ↦ rw e (number_part-bracket (acc ++ (b ∷ [])) (d ∷ w) c cs)
]

pub number_part-array :
    (w ds : Bytes) → All IsDigit ds → number_part [] (w ++ (b'[' ∷ (ds ++ (b']' ∷ [])))) ≡ ds
number_part-array w [] h = number_part-bracket [] w b']' [] ∙ number_part-digits [] [] tt
number_part-array w (d ∷ ds) h =
    number_part-bracket [] w d (ds ++ (b']' ∷ [])) ∙ number_part-digits [] (d ∷ ds) h

pub front-append :
    (reader : Bytes → Result ParamType) (w back : Bytes)
    → IsAscii (w ++ back)
    → front reader (w ++ back) (length back) ≡ ok w
unfolding front
front-append reader w back h =
    let number = count_chars-ascii (w ++ back) h in
    let size = length-append_bytes w back in
    let some : ltb (count_chars (w ++ back)) (length back) ≡ false = ground arith in
    let rest : count_chars (w ++ back) - length back ≡ length w = omega arith in
    let cut : str_slice (w ++ back) 0 (0 + length w) ≡ ok w = str_slice-append [] w back h in
    rw (some, rest) (rw zero-add at cut)
