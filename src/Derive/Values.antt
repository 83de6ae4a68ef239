-- ===== src/Derive/Values.antt =====
-- The fragments of `from_token` (derive/src/lib.rs): they give back the value of a token, except for
-- arrays of fixed size.
use ethabi.Base.{
  ℕ, ◌==◌, Bool, true, false, if◌then◌else◌, List, [], ◌∷◌, length, Bytes, Result, ok, err, panic,
  ◌>>=◌, bind_ok, text, ◌≡◌, refl, sym, ap, ◌∙◌, subst, ==_refl,
}
use ethabi.Token.{Token, Tokens}
use ethabi.ParamType.{ParamType}
use ethabi.Derive.{Expr, ident, method, expect, mapped, copied, copied_hash, from_token}
use ethabi.Derive.Run
use ethabi.Derive.Run.{
  Value, Values, Env, run, each, expected, items, copy, lookup, values_of, value_method,
  token_method, refused,
}
use ethabi.Derive.Tokens.{
  IsEmitted, Carries, AllCarry, address, bytes, hash, fixed_bytes, int, uint, bool, string, vec,
  array, nil, cons, emitted, here, mapped_run,
}

-- Without tuples and arrays of fixed size.
abbrev pub IsReadable : ParamType → Type 0
IsReadable (ParamType.array p) = IsReadable p
IsReadable (ParamType.fixed_array p n) = ⊥
IsReadable (ParamType.tuple ps) = ⊥
IsReadable _ = Unit {0}

-- The fragment for an array.
abbrev pub array_items : Expr → Expr → Expr
array_items e c =
    method (mapped (expect (method e (text "into_array"))) (text "inner") c) (text "collect")

pub readable_emitted : (p : ParamType) → IsReadable p → IsEmitted p
readable_emitted (ParamType.array p) h = readable_emitted p h
readable_emitted (ParamType.fixed_array p n) h = absurd h
readable_emitted (ParamType.tuple ps) h = absurd h
readable_emitted ParamType.address h = tt
readable_emitted ParamType.bytes h = tt
readable_emitted (ParamType.int n) h = tt
readable_emitted (ParamType.uint n) h = tt
readable_emitted ParamType.bool h = tt
readable_emitted ParamType.string h = tt
readable_emitted (ParamType.fixed_bytes n) h = tt

pub from_token-IsReadable :
    (p : ParamType) (e : Expr) → IsReadable p → (c : Expr) × (from_token p e ≡ ok c)
unfolding from_token
from_token-IsReadable (ParamType.array p) e h =
    let inner = from_token-IsReadable p (ident (text "inner")) h in
    (_, ap (λ r. r >>= λ i. ok (array_items e i)) inner.1)
from_token-IsReadable (ParamType.fixed_array p n) e h = absurd h
from_token-IsReadable (ParamType.tuple ps) e h = absurd h
from_token-IsReadable ParamType.address e h = (_, refl)
from_token-IsReadable ParamType.bytes e h = (_, refl)
from_token-IsReadable (ParamType.int n) e h = (_, refl)
from_token-IsReadable (ParamType.uint n) e h = (_, refl)
from_token-IsReadable ParamType.bool e h = (_, refl)
from_token-IsReadable ParamType.string e h = (_, refl)
from_token-IsReadable (ParamType.fixed_bytes n) e h = (_, refl)

-- A method that gives an `Option`, and `expect`.
taken_run :
    (env : Env) (e : Expr) (name : Bytes) (t : Token) (v : Value)
    → run env e ≡ ok (Run.token t)
    → (value_method (Run.token t) name >>= expected) ≡ ok v
    → run env (expect (method e name)) ≡ ok v
unfolding run
taken_run env e name t v h k = ap (λ r. (r >>= λ v. value_method v name) >>= expected) h ∙ k

copied_run :
    (env : Env) (e : Expr) (bs : Bytes) (n : ℕ)
    → run env e ≡ ok (Run.byte_vec bs)
    → length bs ≡ n
    → (run env (copied n e) ≡ ok (Run.byte_array bs))
      × (run env (copied_hash n e) ≡ ok (Run.hash bs))
unfolding run
copied_run env e bs n h k =
    let size : copy n (Run.byte_vec bs) ≡ ok bs = rw (k, ==_refl n) refl in
    (
      ap (λ r. (r >>= copy n) >>= λ bs. ok (Run.byte_array bs)) h
          ∙ ap (λ r. r >>= λ bs. ok (Run.byte_array bs)) size,
      ap (λ r. (r >>= copy n) >>= λ bs. ok (Run.hash bs)) h
          ∙ ap (λ r. r >>= λ bs. ok (Run.hash bs)) size,
    )

-- The fragment that `from_token` emits for the expression of a token gives the value it carries.
mutual
  unfolding from_token value_method ethabi.Base.text_eq

  pub run-from_token :
      {p : ParamType} {v : Value} {t : Token} (env : Env) (e c : Expr)
      → IsReadable p
      → Carries p v t
      → from_token p e ≡ ok c
      → run env e ≡ ok (Run.token t)
      → run env c ≡ ok v
  run-from_token env e c r (address {bs}) hc h =
      emitted env _ c (Run.address bs) hc
        (taken_run env e (text "into_address") _ (Run.address bs) h refl)
  run-from_token env e c r (bytes {bs}) hc h =
      emitted env _ c (Run.byte_vec bs) hc
        (taken_run env e (text "into_bytes") _ (Run.byte_vec bs) h refl)
  run-from_token env e c r (int {i} {n}) hc h =
      emitted env _ c (Run.u256 i) hc (taken_run env e (text "into_int") _ (Run.u256 i) h refl)
  run-from_token env e c r (uint {i} {n}) hc h =
      emitted env _ c (Run.u256 i) hc (taken_run env e (text "into_uint") _ (Run.u256 i) h refl)
  run-from_token env e c r (bool {b}) hc h =
      emitted env _ c (Run.bool b) hc (taken_run env e (text "into_bool") _ (Run.bool b) h refl)
  run-from_token env e c r (string {s}) hc h =
      emitted env _ c (Run.string s) hc
        (taken_run env e (text "into_string") _ (Run.string s) h refl)
  run-from_token env e c r (hash {bs} {n} k l) hc h =
      let v = expect (method e (text "into_fixed_bytes")) in
      let hc' : ok (copied_hash 32 v) ≡ ok c = (rw k at hc) in
      emitted env (copied_hash 32 v) c (Run.hash bs) hc'
        (copied_run env v bs 32
          (taken_run env e (text "into_fixed_bytes") _ (Run.byte_vec bs) h refl) l).1
  run-from_token env e c r (fixed_bytes {bs} {n} k l) hc h =
      let v = expect (method e (text "into_fixed_bytes")) in
      let hc' : ok (copied n v) ≡ ok c = (rw k at hc) in
      emitted env (copied n v) c (Run.byte_array bs) hc'
        (copied_run env v bs n
          (taken_run env e (text "into_fixed_bytes") _ (Run.byte_vec bs) h refl) l).0
  run-from_token env e c r (vec {p} {vs} {ts} all) hc h =
      let inner = bind_ok (from_token p (ident (text "inner"))) (λ i. ok (array_items e i)) c hc in
      emitted env (array_items e inner.0) c (Run.vec vs) inner.2 (
        mapped_run env (expect (method e (text "into_array"))) inner.0 (Run.vec (values_of ts))
          (values_of ts) vs (taken_run env e (text "into_array") _ (Run.vec (values_of ts)) h refl)
          refl (each-from_token env inner.0 r all inner.1))
  run-from_token env e c r (array all k) hc h = absurd r

  each-from_token :
      {p : ParamType} {vs : Values} {ts : Tokens} (env : Env) (c : Expr)
      → IsReadable p
      → AllCarry p vs ts
      → from_token p (ident (text "inner")) ≡ ok c
      → each (λ v. run ((text "inner", v) ∷ env) c) (values_of ts) ≡ ok vs
  each-from_token env c r nil hc = refl
  each-from_token env c r (cons {v} {vs} {t} {ts} first rest) hc =
      let one =
        run-from_token ((text "inner", Run.token t) ∷ env) (ident (text "inner")) c r first hc
          (here (Run.token t) env) in
      ap
        (λ w. w >>= λ w.
          each (λ v. run ((text "inner", v) ∷ env) c) (values_of ts) >>= λ ws. ok (Run.cons w ws))
        one
      ∙ ap (λ ws. ws >>= λ ws. ok (Run.cons v ws)) (each-from_token env c r rest hc)
