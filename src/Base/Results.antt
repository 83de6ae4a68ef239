-- ===== src/Base/Results.antt =====
-- Rust's `Result<T, Error>` (ethabi/src/errors.rs), with a third outcome for a panic.
use ethabi.Base.Lists.{Bytes}
use mathlib.Core.Path.{◌≡◌, refl, subst}
use mathlib.Core.Bool.{Bool, true, false}
use mathlib.Core.Option.{Option, none, some}

-- The errors of serde that the visitors raise, with the name of the field, and any other.
pub data SerdeError : Type 0 where
  duplicate_field : Bytes → SerdeError
  missing_field : Bytes → SerdeError
  invalid_type : SerdeError
  custom : SerdeError

-- `Error`, without the payloads of the errors that other crates raise.
pub data Error : Type 0 where
  invalid_name : Bytes → Error
  invalid_data : Error
  serde_json : SerdeError → Error
  parse_int : Error
  hex : Error
  other : Bytes → Error

-- `panic` is a run that unwinds: an index out of range or an explicit `panic!`.
pub data Result {ℓ} (T : Type ℓ) : Type ℓ where
  panic : Result T
  err : Error → Result T
  ok : T → Result T

module _ {ℓ κ} {S : Type ℓ} {T : Type κ} where
  -- The `?` operator, and a panic that unwinds.
  infixl 5 ◌>>=◌
  abbrev pub ◌>>=◌ : Result S → (S → Result T) → Result T
  panic >>= rest = panic
  err e >>= rest = err e
  ok s >>= rest = rest s

  -- `Result::map`.
  abbrev pub map_ok : (S → T) → Result S → Result T
  map_ok f r = r >>= λ s. ok (f s)

infixl 5 ◌>>◌
abbrev pub ◌>>◌ {ℓ} : {T : Type ℓ} → Result (Unit {0}) → Result T → Result T
check >> rest = check >>= λ _. rest

-- `if !test { return Err(error) }`.
abbrev pub guard : Bool → Error → Result (Unit {0})
guard test error = elim test [ false ↦ err error | true ↦ ok tt ]

-- `Option::ok_or`.
abbrev pub ok_or {ℓ} : {T : Type ℓ} → Option T → Error → Result T
ok_or found error = elim found [ some t ↦ ok t | none ↦ err error ]

-- A run without a panic: it raises an error, or returns a value of which `P` holds.
pub data Ensures {ℓ κ} {T : Type ℓ} (P : T → Type κ) : Result T → Type (ℓ ⊔ κ) where
  fails : {e : Error} → Ensures P (err e)
  holds : {t : T} → P t → Ensures P (ok t)

module _ {ℓ κ ℓ' κ'} {S : Type ℓ} {P : S → Type κ} {T : Type ℓ'} {Q : T → Type κ'} where
  pub Ensures-bind :
      {m : Result S} {k : S → Result T}
      → Ensures P m
      → ((s : S) → P s → Ensures Q (k s))
      → Ensures Q (m >>= k)
  Ensures-bind fails after = fails
  Ensures-bind (holds {t = s} p) after = after s p

pub Ensures-weaken {ℓ κ κ'} :
    {T : Type ℓ} {P : T → Type κ} {Q : T → Type κ'} {m : Result T}
    → Ensures P m
    → ((t : T) → P t → Q t)
    → Ensures Q m
Ensures-weaken fails imp = fails
Ensures-weaken (holds {t} p) imp = holds (imp t p)

-- What a run that succeeds went through.
pub bind_ok {ℓ κ} :
    {S : Type ℓ} {T : Type κ} (r : Result S) (k : S → Result T) (t : T)
    → (r >>= k) ≡ ok t
    → (s : S) × (r ≡ ok s) × (k s ≡ ok t)
bind_ok panic k t h = absurd (cc)
bind_ok (err e) k t h = absurd (cc)
bind_ok (ok s) k t h = (s, refl, h)

-- What holds of the value, if a run returns one.
pub data Yields {ℓ κ} {T : Type ℓ} (P : T → Type κ) : Result T → Type (ℓ ⊔ κ) where
  unwinds : Yields P panic
  raises : {e : Error} → Yields P (err e)
  gives : {t : T} → P t → Yields P (ok t)

module _ {ℓ κ ℓ' κ'} {S : Type ℓ} {P : S → Type κ} {T : Type ℓ'} {Q : T → Type κ'} where
  pub Yields-bind :
      {m : Result S} {k : S → Result T}
      → Yields P m
      → ((s : S) → P s → Yields Q (k s))
      → Yields Q (m >>= k)
  Yields-bind unwinds after = unwinds
  Yields-bind raises after = raises
  Yields-bind (gives {t = s} p) after = after s p

pub Yields-ok {ℓ κ} :
    {T : Type ℓ} {P : T → Type κ} {t : T} (r : Result T) → Yields P r → r ≡ ok t → P t
Yields-ok panic h e = absurd (cc)
Yields-ok (err f) h e = absurd (cc)
Yields-ok {P} (ok u) (gives p) e = let same : u ≡ _ = cc in subst P same p
