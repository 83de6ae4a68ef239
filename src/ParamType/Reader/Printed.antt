-- ===== src/ParamType/Reader/Printed.antt =====
-- `Reader::read` (ethabi/src/param_type/reader.rs) on the names that `Writer::write`
-- (ethabi/src/param_type/writer.rs) gives.
use ethabi.Base.{
  ℕ, zero, suc, ◌+◌, ◌-◌, ◌*◌, ◌/◌, ◌%◌, ◌^◌, ◌≤◌, ◌<◌, ◌≡◌, refl, ap, subst, map_ok, sym, ◌∙◌, ◌⊎◌,
  inl, inr, some, none, Option, ok_or, parse_int, Bool, true, false, not, ◌&&◌, ◌||◌, ◌==◌, ltb,
  leb, if◌then◌else◌, List, [], ◌∷◌, ◌++◌, length, take, drop, All, All-append, All-weaken, Bytes,
  Result, ok, ◌>>=◌, text, text_eq, digits, decimal, parse_usize, parse_usize-decimal, append_assoc,
  append-nil, Bool-cases, arith, length-append_bytes,
}
use ethabi.ParamType.{
  ParamType, address, bytes, bool, string, int, uint, fixed_bytes, array, fixed_array, tuple,
}
use ethabi.ParamType.Outline.{outline, IsSized}
use ethabi.ParamType.Writer.{write, write_for_abi}
use ethabi.Tokenizer.{ends_with}
use ethabi.Tokenizer.Slices.{IsAscii}
use ethabi.ParamType.Reader.{read, read_array, read_word, front}
use ethabi.ParamType.Reader.Rounds.{read-eq}
use ethabi.ParamType.Reader.Brackets.{
  IsDigit, decimal-AreDigits, digits-IsAscii, ends_with-digits, ends_with-last, number_part-array,
  front-append,
}

-- Without tuples, and with sizes that a `usize` holds.
abbrev pub IsFlat : ParamType → Type 0
IsFlat (int n) = n < 2 ^ 64
IsFlat (uint n) = n < 2 ^ 64
IsFlat (fixed_bytes n) = n < 2 ^ 64
IsFlat (array p) = IsFlat p
IsFlat (fixed_array p n) = (n < 2 ^ 64) × IsFlat p
IsFlat (tuple ps) = ⊥
IsFlat _ = Unit {0}

-- A word that begins like a sized type.
read_word-sized :
    (d : Bytes) (n : ℕ)
    → 1 ≤ length d
    → parse_usize d ≡ some n
    → (read_word (text "int" ++ d) ≡ ok (int n))
      × (read_word (text "uint" ++ d) ≡ ok (uint n))
      × (read_word (text "bytes" ++ d) ≡ ok (fixed_bytes n))
unfolding read_word ethabi.Base.text_eq
read_word-sized [] n s h = absurd (omega arith)
read_word-sized (c ∷ cs) n s h = (rw h, rw h, rw h)

read-word : (s : Bytes) → ends_with s b')' ≡ false → ends_with s b']' ≡ false → read s ≡ read_word s
read-word s e f = read-eq s ∙ (rw (e, f))

read-array :
    (s : Bytes) → ends_with s b')' ≡ false → ends_with s b']' ≡ true → read s ≡ read_array read s
read-array s e f = read-eq s ∙ (rw (e, f))

module _ (w ds : Bytes) (digits_ : All IsDigit ds) (ascii : IsAscii w) where
  -- The brackets of an array type, with the digits of its size.
  abbrev bracketed : Bytes
  bracketed = w ++ (b'[' ∷ (ds ++ (b']' ∷ [])))

  bracketed-IsAscii : IsAscii bracketed
  bracketed-IsAscii =
      All-append (λ b. b < 128) w (b'[' ∷ (ds ++ (b']' ∷ []))) ascii
        (
          omega arith,
          All-append (λ b. b < 128) ds (b']' ∷ []) (digits-IsAscii ds digits_) (omega arith, tt),
        )

  bracketed-ends : (c : ℕ) → ends_with bracketed c ≡ (b']' == c)
  bracketed-ends c =
      ap (λ t. ends_with t c) (ap (λ t. w ++ t) refl ∙ sym (append_assoc w (b'[' ∷ ds) (b']' ∷ [])))
      ∙ ends_with-last (w ++ (b'[' ∷ ds)) b']' c

  bracketed-front : front read bracketed (length ds + 2) ≡ ok w
  bracketed-front =
      let size : length (b'[' ∷ (ds ++ (b']' ∷ []))) ≡ length ds + 2 =
        omega (arith, length-append_bytes ds (b']' ∷ [])) in
      rw (← size) (front-append read w (b'[' ∷ (ds ++ (b']' ∷ []))) bracketed-IsAscii)

  read-bracketed : read bracketed ≡ (
      if length ds == 0
      then (read w >>= λ p. ok (array p))
      else (ok_or (parse_usize ds) parse_int >>= λ len. read w >>= λ p. ok (fixed_array p len)))
  unfolding read_array
  read-bracketed =
      read-array bracketed (bracketed-ends b')') (bracketed-ends b']')
      ∙ (rw (number_part-array w ds digits_) (elim (Bool-cases (length ds == 0)) [
        | inl e ↦
            let two : length ds + 2 ≡ 2 = ground arith in
            rw e (
              ap (λ cut. cut >>= λ sub. map_ok array (read sub))
                (subst (λ n. front read bracketed n ≡ ok w) two bracketed-front))
        | inr e ↦ rw e (
            ap
              (λ cut. ok_or (parse_usize ds) parse_int >>= λ len.
                cut >>= λ sub. map_ok (λ p. fixed_array p len) (read sub))
              bracketed-front)
      ]))

-- What a printed type looks like, and what it is read as.
abbrev Printed : ParamType → Bytes → Type 0
Printed p w = IsAscii w × (read w ≡ ok p)

sized_written :
    (n : ℕ)
    → n < 2 ^ 64
    → Printed (int n) (text "int" ++ decimal n)
      × Printed (uint n) (text "uint" ++ decimal n)
      × Printed (fixed_bytes n) (text "bytes" ++ decimal n)
sized_written n h =
    let d = decimal n in
    let facts = decimal-AreDigits n h in
    let sized = read_word-sized d n facts.1 (parse_usize-decimal n h) in
    let ascii = digits-IsAscii d facts.0 in
    let no : (bs : Bytes) (c : ℕ) → (c < 48) ⊎ (57 < c) → ends_with (bs ++ d) c ≡ false =
      λ bs c k. ends_with-digits bs d c facts.1 facts.0 k in
    (
      (
        All-append (λ b. b < 128) (text "int") d (omega arith, (omega arith, (omega arith, tt)))
            ascii,
        read-word (text "int" ++ d) (no (text "int") b')' (inl (omega arith)))
              (no (text "int") b']' (inr (omega arith)))
            ∙ sized.0,
      ),
      (
        All-append (λ b. b < 128) (text "uint") d
            (omega arith, (omega arith, (omega arith, (omega arith, tt)))) ascii,
        read-word (text "uint" ++ d) (no (text "uint") b')' (inl (omega arith)))
              (no (text "uint") b']' (inr (omega arith)))
            ∙ sized.1,
      ),
      (
        All-append (λ b. b < 128) (text "bytes") d
            (omega arith, (omega arith, (omega arith, (omega arith, (omega arith, tt))))) ascii,
        read-word (text "bytes" ++ d) (no (text "bytes") b')' (inl (omega arith)))
              (no (text "bytes") b']' (inr (omega arith)))
            ∙ sized.2,
      ),
    )

not_empty : (ds : Bytes) → 1 ≤ length ds → (length ds == 0) ≡ false
not_empty ds h = ground arith

pub outline_written : (p : ParamType) → IsSized p → Printed (outline p) (write_for_abi p false)
unfolding write_for_abi read ethabi.Base.text_eq
outline_written address h = (
  (
    omega arith,
    (omega arith, (omega arith, (omega arith, (omega arith, (omega arith, (omega arith, tt)))))),
  ),
  refl,
)
outline_written bytes h =
    ((omega arith, (omega arith, (omega arith, (omega arith, (omega arith, tt))))), refl)
outline_written bool h = ((omega arith, (omega arith, (omega arith, (omega arith, tt)))), refl)
outline_written string h = (
  (omega arith, (omega arith, (omega arith, (omega arith, (omega arith, (omega arith, tt)))))),
  refl,
)
outline_written (int n) h = (sized_written n h).0
outline_written (uint n) h = (sized_written n h).1
outline_written (fixed_bytes n) h = (sized_written n h).2
outline_written (array p) h =
    let w = write_for_abi p false in
    let inner = outline_written p h in
    (bracketed-IsAscii w [] tt inner.0, read-bracketed w [] tt inner.0 ∙ (rw inner.1))
outline_written (fixed_array p n) h =
    let w = write_for_abi p false in
    let inner = outline_written p h.1 in
    let facts = decimal-AreDigits n h.0 in
    let some = not_empty (decimal n) facts.1 in
    (
      bracketed-IsAscii w (decimal n) facts.0 inner.0,
      read-bracketed w (decimal n) facts.0 inner.0
          ∙ (rw (some, parse_usize-decimal n h.0, inner.1)),
    )
outline_written (tuple ps) h =
    ((omega arith, (omega arith, (omega arith, (omega arith, (omega arith, tt))))), refl)

-- A type without tuples is its own outline, and is written in one way.
flat_outline :
    (p : ParamType)
    → IsFlat p
    → IsSized p × (outline p ≡ p) × (write_for_abi p true ≡ write_for_abi p false)
unfolding write_for_abi
flat_outline (array p) h =
    let rest = flat_outline p h in (rest.0, ap array rest.1, ap (λ w. w ++ text "[]") rest.2)
flat_outline (fixed_array p n) h =
    let rest = flat_outline p h.1 in
    (
      (h.0, rest.0),
      ap (λ q. fixed_array q n) rest.1,
      ap (λ w. w ++ (text "[" ++ (decimal n ++ text "]"))) rest.2,
    )
flat_outline (tuple ps) h = absurd h
flat_outline (int n) h = (h, refl, refl)
flat_outline (uint n) h = (h, refl, refl)
flat_outline (fixed_bytes n) h = (h, refl, refl)
flat_outline _ h = (tt, refl, refl)

-- The name that `write` gives to a type without tuples, whose sizes are below 2 ^ 64, is read back by
-- `read` as the type.
pub read-write : (p : ParamType) → IsFlat p → read (write p) ≡ ok p
unfolding write
read-write p h =
    let flat = flat_outline p h in ap read flat.2 ∙ (outline_written p flat.0).1 ∙ ap ok flat.1
