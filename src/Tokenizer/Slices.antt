-- ===== src/Tokenizer/Slices.antt =====
-- Cutting text in ASCII (the slices of ethabi/src/token/mod.rs).
use ethabi.Base.{
  ℕ, zero, suc, ◌+◌, ◌-◌, ◌<◌, ◌≡◌, refl, ap, true, ◌||◌, ltb, leb, [], ◌∷◌, ◌++◌, length, drop,
  take-append, drop-append, All, Bytes, ok, arith, length-append_bytes,
}
use ethabi.Tokenizer.{starts, count_chars, str_slice, ends_with}

abbrev pub IsAscii : Bytes → Type 0
IsAscii bs = All (λ b. b < 128) bs

starts-drop : (n : ℕ) (bs : Bytes) → IsAscii bs → starts (drop n bs) ≡ true
starts-drop zero [] h = refl
starts-drop zero (b ∷ bs) h = ground arith
starts-drop (suc n) [] h = refl
starts-drop (suc n) (b ∷ bs) h = starts-drop n bs h.1

pub str_slice-append :
    (front sub back : Bytes)
    → IsAscii (front ++ (sub ++ back))
    → str_slice (front ++ (sub ++ back)) (length front) (length front + length sub) ≡ ok sub
unfolding str_slice
str_slice-append front sub back h =
    let value = front ++ (sub ++ back) in
    let ordered : leb (length front) (length front + length sub) ≡ true = ground arith in
    let size : length value ≡ length front + (length sub + length back) =
      omega (arith, length-append_bytes front (sub ++ back), length-append_bytes sub back) in
    let inside : leb (length front + length sub) (length value) ≡ true = ground arith in
    let number : length front + length sub - length front ≡ length sub = omega arith in
    rw (
      ordered,
      inside,
      starts-drop (length front) value h,
      starts-drop (length front + length sub) value h,
      number,
      drop-append front (sub ++ back),
      take-append sub back,
    )

pub count_chars-ascii : (bs : Bytes) → IsAscii bs → count_chars bs ≡ length bs
count_chars-ascii [] h = refl
count_chars-ascii (b ∷ bs) h =
    let whole : (ltb b 128 || leb 192 b) ≡ true = ground arith in
    rw whole (ap suc (count_chars-ascii bs h.1))

pub ends_with-append : (bs : Bytes) (c : ℕ) → ends_with (bs ++ (c ∷ [])) c ≡ true
unfolding ends_with
ends_with-append [] c = ground arith
ends_with-append (b ∷ []) c = ground arith
ends_with-append (b ∷ d ∷ ds) c = ends_with-append (d ∷ ds) c
