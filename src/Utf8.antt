-- ===== src/Utf8.antt =====
-- The standard library's UTF-8: `String::from_utf8_lossy`, and which bytes a `String` can hold.
-- A decoder with a few states, as the Unicode standard and its practice for ill-formed input
-- describe: each maximal prefix of a character that is cut short becomes one U+FFFD.
use ethabi.Base.{
  ℕ, ◌-◌, ◌≡◌, refl, Bool, true, false, ◌&&◌, ◌==◌, leb, if◌then◌else◌, [], ◌∷◌, ◌++◌, Bytes, ap,
  append_assoc, arith,
}

-- The bytes read of a character, how many are missing, and the range of the next.
pub data State : Type 0 where
  start : State
  inside : Bytes → ℕ → ℕ → ℕ → State

abbrev pub replacement : Bytes
replacement = 0xef ∷ 0xbf ∷ 0xbd ∷ []

abbrev pub in_range : ℕ → ℕ → ℕ → Bool
in_range lo hi b = leb lo b && leb b hi

-- What a byte means at the start of a character.
pub data Lead : Type 0 where
  ascii invalid : Lead
  more : ℕ → ℕ → ℕ → Lead

unfoldable pub lead : ℕ → Lead
lead b =
    if leb b 0x7f
    then ascii
    else if in_range 0xc2 0xdf b
    then more 0 0x80 0xbf
    else if b == 0xe0
    then more 1 0xa0 0xbf
    else if b == 0xed
    then more 1 0x80 0x9f
    else if in_range 0xe1 0xef b
    then more 1 0x80 0xbf
    else if b == 0xf0
    then more 2 0x90 0xbf
    else if in_range 0xf1 0xf3 b
    then more 2 0x80 0xbf
    else if b == 0xf4
    then more 2 0x80 0x8f
    else invalid

-- The output for a first byte, and the state behind it.
unfoldable pub begin : ℕ → Lead → Bytes × State
begin b ascii = (b ∷ [], start)
begin b invalid = (replacement, start)
begin b (more missing lo hi) = ([], inside (b ∷ []) missing lo hi)

-- One byte. A byte that does not continue the character replaces what was read, and is read anew.
unfoldable pub step : State → ℕ → Bytes × State
unfolding begin lead
step start b = begin b (lead b)
step (inside pending missing lo hi) b =
    if in_range lo hi b
    then (if missing == 0
        then (pending ++ (b ∷ []), start)
        else ([], inside (pending ++ (b ∷ [])) (missing - 1) 0x80 0xbf))
    else let (out, next) = begin b (lead b) in (replacement ++ out, next)

-- A character cut short by the end of the input is replaced.
unfoldable pub finish : State → Bytes
finish start = []
finish (inside pending missing lo hi) = replacement

unfoldable pub run : State → Bytes → Bytes
unfolding step finish
run s [] = finish s
run s (b ∷ bs) = let (out, next) = step s b in out ++ run next bs

unfoldable pub from_utf8_lossy : Bytes → Bytes
unfolding run
from_utf8_lossy bs = run start bs

-- The bytes are well-formed UTF-8 from the state on.
unfoldable pub accepts : State → Bytes → Bool
unfolding lead
accepts start [] = true
accepts start (b ∷ bs) = elim (lead b) [
  | ascii ↦ accepts start bs
  | invalid ↦ false
  | more missing lo hi ↦ accepts (inside (b ∷ []) missing lo hi) bs
]
accepts (inside pending missing lo hi) [] = false
accepts (inside pending missing lo hi) (b ∷ bs) =
    let last = accepts start bs in
    let inner = accepts (inside (pending ++ (b ∷ [])) (missing - 1) 0x80 0xbf) bs in
    in_range lo hi b && (if missing == 0 then last else inner)

-- `str::from_utf8(bytes).is_ok()`: what every `String` satisfies.
unfoldable pub is_utf8 : Bytes → Bool
unfolding accepts
is_utf8 bs = accepts start bs

abbrev pending : State → Bytes
pending start = []
pending (inside bs missing lo hi) = bs

-- The step lemmas take the induction hypothesis for the bytes that are left.
abbrev KeepsRest : Bytes → Type 0
KeepsRest bs = (s : State) → accepts s bs ≡ true → run s bs ≡ pending s ++ bs

begin-keeps :
    (b : ℕ) (bs : Bytes) (ih : KeepsRest bs) (l : Lead)
    → (elim l [
      | ascii ↦ accepts start bs
      | invalid ↦ false
      | more missing lo hi ↦ accepts (inside (b ∷ []) missing lo hi) bs
    ])
      ≡ true
    → (begin b l).0 ++ run (begin b l).1 bs ≡ b ∷ bs
unfolding begin
begin-keeps b bs ih ascii h = ap (λ t. b ∷ t) (ih start h)
begin-keeps b bs ih invalid h = cc
begin-keeps b bs ih (more missing lo hi) h = ih _ h

inside-keeps :
    (p : Bytes) (missing lo hi b : ℕ) (bs : Bytes) (ih : KeepsRest bs)
    → accepts (inside p missing lo hi) (b ∷ bs) ≡ true
    → run (inside p missing lo hi) (b ∷ bs) ≡ p ++ (b ∷ bs)
unfolding accepts run
inside-keeps p missing lo hi b bs ih h = ground (
  arith,
  ih start,
  ih (inside (p ++ (b ∷ [])) (missing - 1) 0x80 0xbf),
  append_assoc p (b ∷ []) bs,
)

run-accepts : (s : State) (bs : Bytes) → accepts s bs ≡ true → run s bs ≡ pending s ++ bs
unfolding run accepts
run-accepts start [] h = refl
run-accepts start (b ∷ bs) h = begin-keeps b bs (λ s. run-accepts s bs) (lead b) h
run-accepts (inside p missing lo hi) [] h = cc
run-accepts (inside p missing lo hi) (b ∷ bs) h =
    inside-keeps p missing lo hi b bs (λ s. run-accepts s bs) h

-- Text that is well-formed is kept as it is.
pub from_utf8_lossy-is_utf8 : (bs : Bytes) → is_utf8 bs ≡ true → from_utf8_lossy bs ≡ bs
unfolding from_utf8_lossy is_utf8
from_utf8_lossy-is_utf8 bs h = run-accepts start bs h
