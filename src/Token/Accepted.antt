-- ===== src/Token/Accepted.antt =====
-- The tokens that `Token::types_check` (ethabi/src/token/token.rs) accepts, described without running it.
use ethabi.Base.{
  ℕ, suc, ap, ◌≡◌, ◌↔◌, refl, Bool, true, false, leb, ◌≤◌, ◌==◌, ==_iff, Bool-cases, inl, inr,
  length, Result, ok, err, panic, arith,
}
use ethabi.ParamType
use ethabi.ParamType.{ParamType, ParamTypes}
use ethabi.Token.{
  Token, Tokens, address, fixed_bytes, bytes, int, uint, bool, string, fixed_array, array, tuple,
  nil, cons, count, and_then, type_check, all_check, fields_check, zip_check, types_check,
}

-- `bytesN` takes at most N bytes, a fixed array its exact number of items, and a tuple tokens for its
-- first fields.
abbrev mutual
  pub IsAccepted : Token → ParamType → Type 0
  IsAccepted (address a) ParamType.address = Unit {0}
  IsAccepted (bytes bs) ParamType.bytes = Unit {0}
  IsAccepted (int v) (ParamType.int n) = Unit {0}
  IsAccepted (uint v) (ParamType.uint n) = Unit {0}
  IsAccepted (bool b) ParamType.bool = Unit {0}
  IsAccepted (string s) ParamType.string = Unit {0}
  IsAccepted (fixed_bytes bs) (ParamType.fixed_bytes n) = length bs ≤ n
  IsAccepted (array ts) (ParamType.array p) = AllAccepted ts p
  IsAccepted (fixed_array ts) (ParamType.fixed_array p n) = (n ≡ count ts) × AllAccepted ts p
  IsAccepted (tuple ts) (ParamType.tuple ps) = FieldsAccepted ts ps
  IsAccepted _ _ = ⊥

  pub AllAccepted : Tokens → ParamType → Type 0
  AllAccepted nil p = Unit {0}
  AllAccepted (cons t ts) p = IsAccepted t p × AllAccepted ts p

  pub FieldsAccepted : Tokens → ParamTypes → Type 0
  FieldsAccepted nil ps = Unit {0}
  FieldsAccepted (cons t ts) ParamTypes.nil = ⊥
  FieldsAccepted (cons t ts) (ParamTypes.cons p ps) = IsAccepted t p × FieldsAccepted ts ps

and_then-ok : (m n : Result Bool) → (and_then m n ≡ ok true) ↔ ((m ≡ ok true) × (n ≡ ok true))
and_then-ok panic n = (λ h. absurd (cc), λ h. absurd (cc))
and_then-ok (err e) n = (λ h. absurd (cc), λ h. absurd (cc))
and_then-ok (ok true) n = (λ h. (refl, h), λ h. h.1)
and_then-ok (ok false) n = (λ h. absurd (cc), λ h. absurd (cc))

both_checked :
    {P Q : Type 0} (m n : Result Bool)
    → (m ≡ ok true) ↔ P
    → (n ≡ ok true) ↔ Q
    → (and_then m n ≡ ok true) ↔ (P × Q)
both_checked m n p q = (
  λ h. let k = (and_then-ok m n).0 h in (p.0 k.0, q.0 k.1),
  λ h. (and_then-ok m n).1 (p.1 h.0, q.1 h.1),
)

leb_iff : (a b : ℕ) → (ok (leb a b) ≡ ok true) ↔ (a ≤ b)
leb_iff a b = elim (Bool-cases (leb a b)) [
  | inl e ↦ (λ _. ground arith, λ _. ap ok e)
  | inr e ↦ (λ h. absurd (cc), λ h. absurd (ground arith))
]

refused : {P : Type 0} → (P → ⊥) → (ok false ≡ ok true) ↔ P
refused never = (λ h. absurd (cc), λ h. absurd (never h))

mutual
  unfolding type_check

  type_check-IsAccepted : (t : Token) (p : ParamType) → (type_check t p ≡ ok true) ↔ IsAccepted t p
  type_check-IsAccepted (address a) ParamType.address = (λ _. tt, λ _. refl)
  type_check-IsAccepted (bytes bs) ParamType.bytes = (λ _. tt, λ _. refl)
  type_check-IsAccepted (int v) (ParamType.int n) = (λ _. tt, λ _. refl)
  type_check-IsAccepted (uint v) (ParamType.uint n) = (λ _. tt, λ _. refl)
  type_check-IsAccepted (bool b) ParamType.bool = (λ _. tt, λ _. refl)
  type_check-IsAccepted (string s) ParamType.string = (λ _. tt, λ _. refl)
  type_check-IsAccepted (fixed_bytes bs) (ParamType.fixed_bytes n) = leb_iff (length bs) n
  type_check-IsAccepted (array ts) (ParamType.array p) = all_check-AllAccepted ts p
  type_check-IsAccepted (fixed_array ts) (ParamType.fixed_array p n) =
      let items = all_check-AllAccepted ts p in
      let size = ==_iff n (count ts) in
      elim (Bool-cases (n == count ts)) [
        | inl e ↦ rw e (λ h. (size.0 e, items.0 h), λ h. items.1 h.1)
        | inr e ↦ rw e (λ h. absurd (cc), λ h. let f = size.1 h.0 in absurd (cc))
      ]
  type_check-IsAccepted (tuple ts) (ParamType.tuple ps) = fields_check-FieldsAccepted ts ps
  type_check-IsAccepted _ _ = (λ h. absurd (cc), λ h. absurd h)

  all_check-AllAccepted :
      (ts : Tokens) (p : ParamType) → (all_check ts p ≡ ok true) ↔ AllAccepted ts p
  all_check-AllAccepted nil p = (λ _. tt, λ _. refl)
  all_check-AllAccepted (cons t ts) p =
      both_checked (type_check t p) (all_check ts p) (type_check-IsAccepted t p)
        (all_check-AllAccepted ts p)

  fields_check-FieldsAccepted :
      (ts : Tokens) (ps : ParamTypes) → (fields_check ts ps ≡ ok true) ↔ FieldsAccepted ts ps
  fields_check-FieldsAccepted nil ps = (λ _. tt, λ _. refl)
  fields_check-FieldsAccepted (cons t ts) ParamTypes.nil = (λ h. absurd (cc), λ h. absurd h)
  fields_check-FieldsAccepted (cons t ts) (ParamTypes.cons p ps) =
      both_checked (type_check t p) (fields_check ts ps) (type_check-IsAccepted t p)
        (fields_check-FieldsAccepted ts ps)

-- A token for each type, accepted for it.
abbrev pub EachAccepted : Tokens → ParamTypes → Type 0
EachAccepted nil ParamTypes.nil = Unit {0}
EachAccepted (cons t ts) (ParamTypes.cons p ps) = IsAccepted t p × EachAccepted ts ps
EachAccepted _ _ = ⊥

counted : (ts : Tokens) (ps : ParamTypes) → EachAccepted ts ps → ParamType.count ps ≡ count ts
counted nil ParamTypes.nil h = refl
counted (cons t ts) (ParamTypes.cons p ps) h = ap suc (counted ts ps h.1)
counted nil (ParamTypes.cons p ps) h = absurd h
counted (cons t ts) ParamTypes.nil h = absurd h

zip_check-EachAccepted :
    (ts : Tokens) (ps : ParamTypes)
    → ParamType.count ps ≡ count ts
    → (zip_check ts ps ≡ ok true) ↔ EachAccepted ts ps
unfolding zip_check
zip_check-EachAccepted nil ParamTypes.nil h = (λ _. tt, λ _. refl)
zip_check-EachAccepted (cons t ts) (ParamTypes.cons p ps) h =
    both_checked (type_check t p) (zip_check ts ps) (type_check-IsAccepted t p)
      (zip_check-EachAccepted ts ps (omega arith))
zip_check-EachAccepted nil (ParamTypes.cons p ps) h = absurd (omega arith)
zip_check-EachAccepted (cons t ts) ParamTypes.nil h = absurd (omega arith)

-- `types_check` answers true exactly where there are as many tokens as types and each token is accepted
-- for the type at its place: it is of the type's kind, has at most N bytes for `bytesN`, the exact
-- number of items for a fixed array, only accepted items, and in a tuple accepted tokens for the first
-- fields and no token behind the last field.
pub types_check-EachAccepted :
    (ts : Tokens) (ps : ParamTypes) → (types_check ts ps ≡ ok true) ↔ EachAccepted ts ps
unfolding types_check
types_check-EachAccepted ts ps =
    let size = ==_iff (ParamType.count ps) (count ts) in
    elim (Bool-cases (ParamType.count ps == count ts)) [
      | inl e ↦ rw e (zip_check-EachAccepted ts ps (size.0 e))
      | inr e ↦ rw e (refused λ h. let f = size.1 (counted ts ps h) in absurd (cc))
    ]
