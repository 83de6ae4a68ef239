-- ===== src/Token/Checks.antt =====
-- What `Token::types_check` (ethabi/src/token/token.rs) accepts.
use ethabi.Base.{◌≡◌, refl, true, false, leb, ◌==◌, length, ok, panic, arith, ==_refl}
use ethabi.ParamType
use ethabi.ParamType.{ParamType, ParamTypes}
use ethabi.Token.{
  Token, Tokens, address, fixed_bytes, bytes, int, uint, bool, string, fixed_array, array, tuple,
  nil, cons, count, append, type_check, all_check, fields_check, zip_check, types_check,
}
use ethabi.Token.Typing.{HasType, AllHaveType, HaveTypes}
use ethabi.Token.Dynamic.{count-HaveTypes}

mutual
  unfolding type_check

  pub type_check-HasType : (t : Token) (p : ParamType) → HasType t p → type_check t p ≡ ok true
  type_check-HasType (address a) ParamType.address h = refl
  type_check-HasType (bytes bs) ParamType.bytes h = refl
  type_check-HasType (int v) (ParamType.int n) h = refl
  type_check-HasType (uint v) (ParamType.uint n) h = refl
  type_check-HasType (bool b) ParamType.bool h = refl
  type_check-HasType (string s) ParamType.string h = refl
  type_check-HasType (fixed_bytes bs) (ParamType.fixed_bytes n) h =
      let fits : leb (length bs) n ≡ true = ground arith in rw fits
  type_check-HasType (array ts) (ParamType.array p) h = all_check-AllHaveType ts p h
  type_check-HasType (fixed_array ts) (ParamType.fixed_array p n) h =
      rw (h.0, ==_refl n) (all_check-AllHaveType ts p h.2)
  type_check-HasType (tuple ts) (ParamType.tuple ps) h = fields_check-HaveTypes ts ps h.1
  type_check-HasType _ _ h = absurd h

  pub all_check-AllHaveType :
      (ts : Tokens) (p : ParamType) → AllHaveType ts p → all_check ts p ≡ ok true
  all_check-AllHaveType nil p h = refl
  all_check-AllHaveType (cons t ts) p h =
      rw (type_check-HasType t p h.0) (all_check-AllHaveType ts p h.1)

  pub fields_check-HaveTypes :
      (ts : Tokens) (ps : ParamTypes) → HaveTypes ts ps → fields_check ts ps ≡ ok true
  fields_check-HaveTypes nil ParamTypes.nil h = refl
  fields_check-HaveTypes (cons t ts) (ParamTypes.cons p ps) h =
      rw (type_check-HasType t p h.0) (fields_check-HaveTypes ts ps h.1)
  fields_check-HaveTypes _ _ h = absurd h

zip_check-HaveTypes : (ts : Tokens) (ps : ParamTypes) → HaveTypes ts ps → zip_check ts ps ≡ ok true
unfolding zip_check
zip_check-HaveTypes nil ParamTypes.nil h = refl
zip_check-HaveTypes (cons t ts) (ParamTypes.cons p ps) h =
    rw (type_check-HasType t p h.0) (zip_check-HaveTypes ts ps h.1)
zip_check-HaveTypes nil (ParamTypes.cons p ps) h = absurd h
zip_check-HaveTypes (cons t ts) ParamTypes.nil h = absurd h

-- Values of the types pass.
pub types_check-HaveTypes :
    (ts : Tokens) (ps : ParamTypes) → HaveTypes ts ps → types_check ts ps ≡ ok true
unfolding types_check
types_check-HaveTypes ts ps h =
    rw (count-HaveTypes ts ps h, ==_refl (count ts)) (zip_check-HaveTypes ts ps h)

-- A list of another length is refused without a look at its tokens.
pub types_check-count :
    (ts : Tokens) (ps : ParamTypes)
    → (ParamType.count ps == count ts) ≡ false
    → types_check ts ps ≡ ok false
unfolding types_check
types_check-count ts ps h = rw h

-- Within a tuple the lengths are not compared: fields may be missing, and one too many panics.
missing_fields :
    (ts : Tokens) (ps qs : ParamTypes)
    → HaveTypes ts ps
    → fields_check ts (ParamType.append ps qs) ≡ ok true
unfolding type_check
missing_fields nil ParamTypes.nil qs h = refl
missing_fields (cons t ts) (ParamTypes.cons p ps) qs h =
    rw (type_check-HasType t p h.0) (missing_fields ts ps qs h.1)
missing_fields nil (ParamTypes.cons p ps) qs h = absurd h
missing_fields (cons t ts) ParamTypes.nil qs h = absurd h

extra_field :
    (ts us : Tokens) (u : Token) (ps : ParamTypes)
    → HaveTypes ts ps
    → fields_check (append ts (cons u us)) ps ≡ panic
unfolding type_check
extra_field nil us u ParamTypes.nil h = refl
extra_field (cons t ts) us u (ParamTypes.cons p ps) h =
    rw (type_check-HasType t p h.0) (extra_field ts us u ps h.1)
extra_field nil us u (ParamTypes.cons p ps) h = absurd h
extra_field (cons t ts) us u ParamTypes.nil h = absurd h

-- Where the tokens of a tuple are of the types `ps`, the tuple passes the check for the tuple type
-- of `ps` with any further types behind them, and the tuple with a token more than `ps` panics.
pub type_check-tuple_length :
    (ts us : Tokens) (u : Token) (ps qs : ParamTypes)
    → HaveTypes ts ps
    → (type_check (tuple ts) (ParamType.tuple (ParamType.append ps qs)) ≡ ok true)
      × (type_check (tuple (append ts (cons u us))) (ParamType.tuple ps) ≡ panic)
unfolding type_check
type_check-tuple_length ts us u ps qs h = (missing_fields ts ps qs h, extra_field ts us u ps h)
