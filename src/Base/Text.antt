-- ===== src/Base/Text.antt =====
-- Text as its UTF-8 bytes, and what the standard library does with it: `==`, `join`, the decimal
-- `Display` of a `usize` and `usize::from_str`.
use Prim.Native.Nat.{ℕ, zero, suc, ◌+◌, ◌-◌, ◌*◌, ◌/◌, ◌%◌, ◌^◌, ◌≤◌, ◌<◌}
use Prim.Native.Char.{code}
use Prim.Native.String.{String}
use mathlib.Core.Path.{◌≡◌, refl}
use mathlib.Core.Logic.{◌↔◌, ◌≢◌}
use mathlib.Core.Bool.{Bool, true, false, ◌&&◌}
use mathlib.Core.Option.{Option, none, some}
use mathlib.Core.List.{List, [], ◌∷◌, ◌++◌}
use native.Mathlib.Omega.{arith}
use native.Mathlib.Nat.{pow-suc}
use ethabi.Base.Tests.{ltb, leb, ◌==◌, if◌then◌else◌}
use ethabi.Base.Lists.{Bytes, length, length-append}

-- The bytes of an ASCII literal.
abbrev pub text : String → Bytes
text String.[] = []
text (String.◌∷◌ c s) = code c ∷ text s

-- `==` on strings and byte vectors.
unfoldable pub text_eq : Bytes → Bytes → Bool
text_eq [] [] = true
text_eq (a ∷ as') (b ∷ bs) = a == b && text_eq as' bs
text_eq _ _ = false

pub text_eq_sound : (s t : Bytes) → text_eq s t ≡ true → s ≡ t
unfolding text_eq
text_eq_sound [] [] h = refl
text_eq_sound (a ∷ s) (b ∷ t) h = ground (arith, text_eq_sound s t)
text_eq_sound [] (b ∷ t) h = cc
text_eq_sound (a ∷ s) [] h = cc

pub text_eq_refl : (s : Bytes) → text_eq s s ≡ true
unfolding text_eq
text_eq_refl [] = refl
text_eq_refl (a ∷ s) = ground (arith, text_eq_refl s)

pub text_eq_iff : (s t : Bytes) → (text_eq s t ≡ true) ↔ (s ≡ t)
text_eq_iff s t = (text_eq_sound s t, λ e. rw e (text_eq_refl t))

pub text_eq_ne : (s t : Bytes) → s ≢ t → text_eq s t ≡ false
text_eq_ne s t h = go (text_eq s t) refl
  where
    go : (b : Bool) → text_eq s t ≡ b → b ≡ false
    go true e = absurd (h (text_eq_sound s t e))
    go false e = refl

-- `strings.join(separator)`.
unfoldable pub join : Bytes → List Bytes → Bytes
join separator [] = []
join separator (s ∷ []) = s
join separator (s ∷ t ∷ ts) = s ++ (separator ++ join separator (t ∷ ts))

-- `format!("{n}")`: at most `rounds + 1` digits.
unfoldable pub digits : ℕ → ℕ → Bytes
digits zero n = (48 + n) ∷ []
digits (suc rounds) n =
    let more = digits rounds (n / 10) ++ ((48 + n % 10) ∷ []) in
    if ltb n 10 then (48 + n) ∷ [] else more

-- A `usize` has at most 20 digits.
unfoldable pub decimal : ℕ → Bytes
decimal n = digits 19 n

-- `str::parse::<usize>`, after the sign: digits only, and no overflow on the way.
unfoldable pub parse_digits : ℕ → Bytes → Option ℕ
parse_digits acc [] = some acc
parse_digits acc (b ∷ bs) =
    let next = acc * 10 + (b - 48) in
    let rest = parse_digits next bs in
    if leb 48 b && leb b 57 && ltb next (2 ^ 64) then rest else none

-- A plus sign may stand in front, and one digit must follow.
unfoldable pub parse_usize : Bytes → Option ℕ
unfolding parse_digits
parse_usize [] = none
parse_usize (b ∷ []) = parse_digits 0 (b ∷ [])
parse_usize (b ∷ c ∷ cs) = parse_digits 0 (if b == b'+' then c ∷ cs else b ∷ c ∷ cs)

parse_digits-append :
    (acc m d : ℕ) (bs : Bytes)
    → parse_digits acc bs ≡ some m
    → parse_digits acc (bs ++ (d ∷ [])) ≡ parse_digits m (d ∷ [])
unfolding parse_digits
parse_digits-append acc m d [] h = cc
parse_digits-append acc m d (b ∷ bs) h =
    ground (arith, parse_digits-append (acc * 10 + (b - 48)) m d bs)

parse_digits-digits :
    (rounds n : ℕ) → n < 10 ^ suc rounds → n < 2 ^ 64 → parse_digits 0 (digits rounds n) ≡ some n
unfolding parse_digits digits
parse_digits-digits zero n h k = ground arith
parse_digits-digits (suc rounds) n h k =
    let less : n / 10 < 10 ^ suc rounds = omega (arith, pow-suc 10 (suc rounds)) in
    ground (
      arith,
      parse_digits-digits rounds (n / 10) less (omega arith),
      parse_digits-append 0 (n / 10) (48 + n % 10) (digits rounds (n / 10)),
    )

digits_some : (rounds n : ℕ) → 1 ≤ length (digits rounds n)
unfolding digits
digits_some zero n = omega arith
digits_some (suc rounds) n =
    ground (arith, length-append (digits rounds (n / 10)) ((48 + n % 10) ∷ []))

-- A text of digits does not begin with a sign.
parse_usize-digits :
    (s : Bytes) (n : ℕ) → 1 ≤ length s → parse_digits 0 s ≡ some n → parse_usize s ≡ some n
unfolding parse_usize parse_digits
parse_usize-digits [] n l h = absurd (omega arith)
parse_usize-digits (b ∷ []) n l h = h
parse_usize-digits (b ∷ c ∷ cs) n l h = ground arith

-- Reading back a printed number.
pub parse_usize-decimal : (n : ℕ) → n < 2 ^ 64 → parse_usize (decimal n) ≡ some n
unfolding decimal
parse_usize-decimal n h =
    parse_usize-digits (digits 19 n) n (digits_some 19 n) (parse_digits-digits 19 n (omega arith) h)
