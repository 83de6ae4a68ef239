-- ===== src/Derive/Calls.antt =====
-- The generated `encode_input` (derive/src/function.rs) at work.
use ethabi.Base.{
  ℕ, zero, suc, ◌+◌, ◌==◌, ==_refl, leb, Bool, true, false, if◌then◌else◌, Option, some, none, List,
  [], ◌∷◌, ◌++◌, length, Bytes, Result, ok, err, panic, ◌>>=◌, text, ◌≡◌, refl, sym, ap, ◌∙◌, subst,
  bind_ok, arith,
}
use ethabi.Externs.{Externs}
use ethabi.ParamType
use ethabi.ParamType.{ParamType, ParamTypes}
use ethabi.Param.{Param, kinds}
use ethabi.Token
use ethabi.Token.{Token, Tokens, type_check, types_check, zip_check, count}
use ethabi.Encoder.{encode}
use ethabi.Function
use ethabi.Function.{Function}
use ethabi.Derive.{Expr, ident, method, mapped_into, boxed_slice, from_template_param, to_token}
use ethabi.Derive.Run
use ethabi.Derive.Run.{Value, Values, Env, run, lookup, refused, value_method}
use ethabi.Derive.Tokens.{
  Carries, AllCarry, address, bytes, hash, fixed_bytes, int, uint, bool, string, vec, array, nil,
  cons, run-to_token, run_vec-to_token,
}
use ethabi.Derive.Parts.{tokenize_inputs}

-- `vec![#(#tokenize),*]`
abbrev pub run_tokens : Env → List Expr → Result Tokens
run_tokens env [] = ok Token.nil
run_tokens env (e ∷ es) =
    let rest = run_tokens env es in
    run env e >>= λ v. elim v [ Run.token t ↦ rest >>= λ ts. ok (Token.cons t ts) | _ ↦ refused ]

-- Each name stands for an argument of its parameter's type, whose token is given.
abbrev pub Arguments : Env → List Bytes → List Param → Tokens → Type 0
Arguments env [] [] Token.nil = Unit {0}
Arguments env (n ∷ ns) (p ∷ ps) (Token.cons t ts) =
    ((v : Value) × (lookup env n ≡ ok v) × Carries p.kind v t) × Arguments env ns ps ts
Arguments _ _ _ _ = ⊥

into_run :
    (env : Env) (n : Bytes) (v : Value)
    → lookup env n ≡ ok v
    → run env (method (ident n) (text "into")) ≡ ok v
unfolding run value_method ethabi.Base.text_eq
into_run env n v h = ap (λ r. r >>= λ v. value_method v (text "into")) h

items_run :
    (env : Env) (n : Bytes) (vs : Values)
    → lookup env n ≡ ok (Run.vec vs)
    → run env (method (mapped_into (ident n)) (text "collect")) ≡ ok (Run.vec vs)
unfolding run value_method ethabi.Base.text_eq
items_run env n vs h =
    ap (λ r. (r >>= Run.items >>= λ vs. ok (Run.iter vs)) >>= λ v. value_method v (text "collect"))
      h

sized_run :
    (env : Env) (n : Bytes) (vs : Values)
    → lookup env n ≡ ok (Run.array vs)
    → run env (
        method
          (mapped_into (method (boxed_slice (method (ident n) (text "into"))) (text "into_vec")))
          (text "collect"))
      ≡ ok (Run.vec vs)
unfolding run value_method ethabi.Base.text_eq
sized_run env n vs h =
    ap
      (λ r.
        (((r >>= λ v. elim v [ Run.array vs ↦ ok (Run.boxed_items vs) | _ ↦ refused ]) >>= λ v.
        value_method v (text "into_vec"))
          >>= Run.items
          >>= λ vs. ok (Run.iter vs))
        >>= λ v. value_method v (text "collect"))
      (into_run env n (Run.array vs) h)

-- The fragment for an argument makes its token.
argument_run :
    {p : ParamType} {v : Value} {t : Token} (env : Env) (n : Bytes) (c : Expr)
    → Carries p v t
    → lookup env n ≡ ok v
    → to_token (from_template_param p n) p ≡ ok c
    → run env c ≡ ok (Run.token t)
unfolding from_template_param
argument_run env n c (vec {p} {vs} {ts} all) h hc =
    run-to_token env _ c (vec all) hc (items_run env n vs h)
argument_run env n c (array {p} {n = k} {vs} {ts} all s) h hc =
    run_vec-to_token k env _ c all hc (sized_run env n vs h)
argument_run env n c (address {bs}) h hc =
    run-to_token env _ c (address {bs = bs}) hc (into_run env n (Run.address bs) h)
argument_run env n c (bytes {bs}) h hc =
    run-to_token env _ c (bytes {bs = bs}) hc (into_run env n (Run.byte_vec bs) h)
argument_run env n c (hash {bs} {n = k} s l) h hc =
    run-to_token env _ c (hash {bs = bs} s l) hc (into_run env n (Run.hash bs) h)
argument_run env n c (fixed_bytes {bs} {n = k} s l) h hc =
    run-to_token env _ c (fixed_bytes {bs = bs} s l) hc (into_run env n (Run.byte_array bs) h)
argument_run env n c (int {i} {n = k}) h hc =
    run-to_token env _ c (int {i = i} {n = k}) hc (into_run env n (Run.u256 i) h)
argument_run env n c (uint {i} {n = k}) h hc =
    run-to_token env _ c (uint {i = i} {n = k}) hc (into_run env n (Run.u256 i) h)
argument_run env n c (bool {b}) h hc =
    run-to_token env _ c (bool {b = b}) hc (into_run env n (Run.bool b) h)
argument_run env n c (string {s}) h hc =
    run-to_token env _ c (string {s = s}) hc (into_run env n (Run.string s) h)

each_run :
    (env : Env) (ns : List Bytes) (ps : List Param) (ts : Tokens) (es : List Expr)
    → Arguments env ns ps ts
    → tokenize_inputs ns ps ≡ ok es
    → run_tokens env es ≡ ok ts
unfolding tokenize_inputs
each_run env [] [] Token.nil es h e =
    let same : [] ≡ es = cc in subst (λ es. run_tokens env es ≡ ok Token.nil) same refl
each_run env (n ∷ ns) (p ∷ ps) (Token.cons t ts) es h e =
    let first =
      bind_ok (to_token (from_template_param p.kind n) p.kind)
        (λ e. tokenize_inputs ns ps >>= λ es. ok (e ∷ es)) es e in
    let rest = bind_ok (tokenize_inputs ns ps) (λ es. ok (first.0 ∷ es)) es first.2 in
    let same : first.0 ∷ rest.0 ≡ es = cc in
    let one = argument_run env n first.0 h.0.2 h.0.1 first.1 in
    let others = each_run env ns ps ts rest.0 h.1 rest.1 in
    subst (λ es. run_tokens env es ≡ ok (Token.cons t ts)) same
      (ap
          (λ r. r >>= λ v. elim v [
            | Run.token t ↦ run_tokens env rest.0 >>= λ ts. ok (Token.cons t ts)
            | _ ↦ refused
          ])
          one
        ∙ ap (λ r. r >>= λ ts. ok (Token.cons t ts)) others)
each_run env [] [] (Token.cons t ts) es h e = absurd h
each_run env [] (p ∷ ps) ts es h e = absurd h
each_run env (n ∷ ns) [] ts es h e = absurd h
each_run env (n ∷ ns) (p ∷ ps) Token.nil es h e = absurd h

-- What carries a value of a type passes the check for the type.
mutual
  unfolding type_check

  type_check-Carries :
      {p : ParamType} {v : Value} {t : Token} → Carries p v t → type_check t p ≡ ok true
  type_check-Carries address = refl
  type_check-Carries bytes = refl
  type_check-Carries (hash {bs} {n} k l) =
      let fits : leb (length bs) n ≡ true = ground arith in ap ok fits
  type_check-Carries (fixed_bytes {bs} {n} k l) =
      let fits : leb (length bs) n ≡ true = ground arith in ap ok fits
  type_check-Carries int = refl
  type_check-Carries uint = refl
  type_check-Carries bool = refl
  type_check-Carries string = refl
  type_check-Carries (vec all) = all_check-AllCarry all
  type_check-Carries (array {p} {n} {vs} {ts} all k) = rw (k, ==_refl n) (all_check-AllCarry all)

  all_check-AllCarry :
      {p : ParamType} {vs : Values} {ts : Tokens}
      → AllCarry p vs ts
      → Token.all_check ts p ≡ ok true
  all_check-AllCarry nil = refl
  all_check-AllCarry (cons first rest) = rw (type_check-Carries first) (all_check-AllCarry rest)

zip_check-Arguments :
    (env : Env) (ns : List Bytes) (ps : List Param) (ts : Tokens)
    → Arguments env ns ps ts
    → (zip_check ts (kinds ps) ≡ ok true) × (ParamType.count (kinds ps) ≡ count ts)
unfolding zip_check kinds
zip_check-Arguments env [] [] Token.nil h = (refl, refl)
zip_check-Arguments env (n ∷ ns) (p ∷ ps) (Token.cons t ts) h =
    let rest = zip_check-Arguments env ns ps ts h.1 in
    (rw (type_check-Carries h.0.2) rest.0, ap suc rest.1)
zip_check-Arguments env [] [] (Token.cons t ts) h = absurd h
zip_check-Arguments env [] (p ∷ ps) ts h = absurd h
zip_check-Arguments env (n ∷ ns) [] ts h = absurd h
zip_check-Arguments env (n ∷ ns) (p ∷ ps) Token.nil h = absurd h

-- Where the arguments of the generated `encode_input` are values of their types, it makes their tokens,
-- the tokens pass the check of the function, and the call is the selector with the encoded tokens.
pub encode_input-tokenize :
    (x : Externs) (names : List Bytes) (f : Function) (env : Env) (ts : Tokens) (es : List Expr)
    → Arguments env names f.inputs ts
    → tokenize_inputs names f.inputs ≡ ok es
    → (run_tokens env es ≡ ok ts)
      × (Function.encode_input x f ts
          ≡ (encode x ts >>= λ encoded. ok (Function.short_signature x f ++ encoded)))
unfolding Function.encode_input Function.short_signature Function.input_param_types types_check
encode_input-tokenize x names f env ts es h e =
    let check = zip_check-Arguments env names f.inputs ts h in
    (each_run env names f.inputs ts es h e, (rw (check.1, ==_refl (count ts), check.0) refl))
