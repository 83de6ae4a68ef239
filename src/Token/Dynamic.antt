-- ===== src/Token/Dynamic.antt =====
-- What `HasType` says of the rest of a token: how it is laid out, and that `type_check` accepts it.
use ethabi.Base.{suc, ◌≤◌, ◌≡◌, refl, ap, ap₂, Bool, false, ◌||◌, arith}
use ethabi.ParamType
use ethabi.ParamType.{ParamType, ParamTypes}
use ethabi.Token.{
  Token, Tokens, address, fixed_bytes, bytes, int, uint, bool, string, fixed_array, array, tuple,
  nil, cons, count, is_dynamic, any_dynamic, push, append,
}
use ethabi.Token.Typing.{HasType, AllHaveType, HaveTypes}

or_last : {a b : Bool} → a ≡ b → (a || false) ≡ b
or_last {a} {b} e = ground arith

or_both : {a b c : Bool} → a ≡ c → b ≡ c → (a || b) ≡ c
or_both {a} {b} {c} e f = ground arith

-- A token is dynamic exactly if its type is.
mutual
  unfolding is_dynamic ParamType.is_dynamic

  pub is_dynamic-HasType :
      (t : Token) (p : ParamType) → HasType t p → is_dynamic t ≡ ParamType.is_dynamic p
  is_dynamic-HasType (address a) ParamType.address h = refl
  is_dynamic-HasType (bytes bs) ParamType.bytes h = refl
  is_dynamic-HasType (int v) (ParamType.int n) h = refl
  is_dynamic-HasType (uint v) (ParamType.uint n) h = refl
  is_dynamic-HasType (bool b) ParamType.bool h = refl
  is_dynamic-HasType (string s) ParamType.string h = refl
  is_dynamic-HasType (fixed_bytes bs) (ParamType.fixed_bytes n) h = refl
  is_dynamic-HasType (array ts) (ParamType.array p) h = refl
  is_dynamic-HasType (fixed_array ts) (ParamType.fixed_array p n) h =
      any_dynamic-AllHaveType ts p (omega arith) h.2
  is_dynamic-HasType (tuple ts) (ParamType.tuple ps) h = any_dynamic-HaveTypes ts ps h.1
  is_dynamic-HasType _ _ h = absurd h

  pub any_dynamic-AllHaveType :
      (ts : Tokens) (p : ParamType)
      → 1 ≤ count ts
      → AllHaveType ts p
      → any_dynamic ts ≡ ParamType.is_dynamic p
  any_dynamic-AllHaveType nil p l h = absurd (omega arith)
  any_dynamic-AllHaveType (cons t nil) p l h = or_last (is_dynamic-HasType t p h.0)
  any_dynamic-AllHaveType (cons t (cons u us)) p l h =
      or_both (is_dynamic-HasType t p h.0) (any_dynamic-AllHaveType (cons u us) p (omega arith) h.1)

  pub any_dynamic-HaveTypes :
      (ts : Tokens) (ps : ParamTypes) → HaveTypes ts ps → any_dynamic ts ≡ ParamType.any_dynamic ps
  any_dynamic-HaveTypes nil ParamTypes.nil h = refl
  any_dynamic-HaveTypes (cons t ts) (ParamTypes.cons p ps) h =
      ap₂ (λ a b. a || b) (is_dynamic-HasType t p h.0) (any_dynamic-HaveTypes ts ps h.1)
  any_dynamic-HaveTypes _ _ h = absurd h

pub count-HaveTypes :
    (ts : Tokens) (ps : ParamTypes) → HaveTypes ts ps → ParamType.count ps ≡ count ts
count-HaveTypes nil ParamTypes.nil h = refl
count-HaveTypes (cons t ts) (ParamTypes.cons p ps) h = ap suc (count-HaveTypes ts ps h.1)
count-HaveTypes nil (ParamTypes.cons p ps) h = absurd h
count-HaveTypes (cons t ts) ParamTypes.nil h = absurd h

pub append-nil : (ts : Tokens) → append ts nil ≡ ts
append-nil nil = refl
append-nil (cons t ts) = ap (λ us. cons t us) (append-nil ts)

pub append-push :
    (ts : Tokens) (t : Token) (us : Tokens) → append (push ts t) us ≡ append ts (cons t us)
append-push nil t us = refl
append-push (cons s ts) t us = ap (λ vs. cons s vs) (append-push ts t us)
