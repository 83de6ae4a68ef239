-- ===== src/ParamType/Reader/Cuts.antt =====
-- Parts that `Reader::read` (ethabi/src/param_type/reader.rs) cuts out of a name.
use ethabi.Base.{
  ℕ, ◌-◌, ◌≤◌, ◌≡◌, refl, inl, inr, ◌&&◌, leb, length, drop, Bytes, Result, ok, err, panic, ◌>>=◌,
  Bool-cases, lengths,
}
use ethabi.Tokenizer.{starts, str_slice}

-- What holds of the value, if there is one.
abbrev pub OkThen {ℓ} : {T : Type ℓ} → (T → Type 0) → Result T → Type 0
OkThen P (ok t) = P t
OkThen P (err e) = Unit {0}
OkThen P panic = Unit {0}

module _ {S : Type 0} {T : Type 0} where
  pub bind-agree :
      (P : S → Type 0) (m : Result S) (f g : S → Result T)
      → OkThen P m
      → ((s : S) → P s → f s ≡ g s)
      → (m >>= f) ≡ (m >>= g)
  bind-agree P (ok s) f g h k = k s h
  bind-agree P (err e) f g h k = refl
  bind-agree P panic f g h k = refl

  pub OkThen-bind :
      (P : T → Type 0) (m : Result S) (f : S → Result T)
      → ((s : S) → OkThen P (f s))
      → OkThen P (m >>= f)
  OkThen-bind P (ok s) f k = k s
  OkThen-bind P (err e) f k = tt
  OkThen-bind P panic f k = tt

pub length-str_slice :
    (value : Bytes) (from to : ℕ)
    → OkThen
        (λ sub. (length sub ≤ length value - from) × (length sub ≤ to - from))
        (str_slice value from to)
unfolding str_slice
length-str_slice value from to =
    elim (Bool-cases (
      leb from to
      && (leb to (length value) && (starts (drop from value) && starts (drop to value))))) [
        | inl e ↦ rw e (omega lengths, omega lengths)
        | inr e ↦ rw e tt
      ]
