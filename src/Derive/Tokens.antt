-- ===== src/Derive/Tokens.antt =====
-- The fragments of `to_token` and `from_token` (derive/src/lib.rs) at work: the token of a value, and
-- the value of a token.
use ethabi.Base.{
  ℕ, ◌==◌, Bool, true, false, Bool-cases, if◌then◌else◌, Option, some, none, List, [], ◌∷◌, length,
  Bytes, Result, ok, err, panic, ◌>>=◌, bind_ok, text, ◌≡◌, refl, sym, ap, ◌∙◌, subst, inl, inr,
  arith,
}
use ethabi.Token
use ethabi.Token.{Token, Tokens, count}
use ethabi.ParamType.{ParamType}
use ethabi.Derive.{Expr, ident, token_variant, method, mapped, block, to_token}
use ethabi.Derive.Run
use ethabi.Derive.Run.{
  Value, Values, Env, run, each, expected, copy, items, lookup, tokens_of, values_of, make_token,
  value_method, token_method, refused,
}

-- The generator's types: it has no tuples.
abbrev pub IsEmitted : ParamType → Type 0
IsEmitted (ParamType.array p) = IsEmitted p
IsEmitted (ParamType.fixed_array p n) = IsEmitted p
IsEmitted (ParamType.tuple ps) = ⊥
IsEmitted _ = Unit {0}

-- The token that carries a value of the Rust type of a parameter type.
mutual
  pub data Carries : ParamType → Value → Token → Type 0 where
    address : {bs : Bytes} → Carries ParamType.address (Run.address bs) (Token.address bs)
    bytes : {bs : Bytes} → Carries ParamType.bytes (Run.byte_vec bs) (Token.bytes bs)
    hash :
        {bs : Bytes} {n : ℕ}
        → (n == 32) ≡ true
        → length bs ≡ 32
        → Carries (ParamType.fixed_bytes n) (Run.hash bs) (Token.fixed_bytes bs)
    fixed_bytes :
        {bs : Bytes} {n : ℕ}
        → (n == 32) ≡ false
        → length bs ≡ n
        → Carries (ParamType.fixed_bytes n) (Run.byte_array bs) (Token.fixed_bytes bs)
    int : {i n : ℕ} → Carries (ParamType.int n) (Run.u256 i) (Token.int i)
    uint : {i n : ℕ} → Carries (ParamType.uint n) (Run.u256 i) (Token.uint i)
    bool : {b : Bool} → Carries ParamType.bool (Run.bool b) (Token.bool b)
    string : {s : Bytes} → Carries ParamType.string (Run.string s) (Token.string s)
    vec :
        {p : ParamType} {vs : Values} {ts : Tokens}
        → AllCarry p vs ts
        → Carries (ParamType.array p) (Run.vec vs) (Token.array ts)
    -- An array of the size.
    array :
        {p : ParamType} {n : ℕ} {vs : Values} {ts : Tokens}
        → AllCarry p vs ts
        → count ts ≡ n
        → Carries (ParamType.fixed_array p n) (Run.array vs) (Token.fixed_array ts)

  pub data AllCarry : ParamType → Values → Tokens → Type 0 where
    nil : {p : ParamType} → AllCarry p Run.nil Token.nil
    cons :
        {p : ParamType} {v : Value} {vs : Values} {t : Token} {ts : Tokens}
        → Carries p v t
        → AllCarry p vs ts
        → AllCarry p (Run.cons v vs) (Token.cons t ts)

tokens_of-values_of : (ts : Tokens) → tokens_of (values_of ts) ≡ ok ts
tokens_of-values_of Token.nil = refl
tokens_of-values_of (Token.cons t ts) =
    ap (λ r. r >>= λ ts. ok (Token.cons t ts)) (tokens_of-values_of ts)

-- The block that is emitted for an array.
abbrev array_block : Expr → Bytes → Expr → Expr
array_block e name c =
    block (text "v") (method (mapped e (text "inner") c) (text "collect"))
      (token_variant name (ident (text "v")))

-- The generator has a fragment for every such type.
pub to_token-IsEmitted :
    (p : ParamType) (e : Expr) → IsEmitted p → (c : Expr) × (to_token e p ≡ ok c)
unfolding to_token
to_token-IsEmitted (ParamType.array p) e h =
    let inner = to_token-IsEmitted p (ident (text "inner")) h in
    (_, ap (λ r. r >>= λ c. ok (array_block e (text "Array") c)) inner.1)
to_token-IsEmitted (ParamType.fixed_array p n) e h =
    let inner = to_token-IsEmitted p (ident (text "inner")) h in
    (_, ap (λ r. r >>= λ c. ok (array_block e (text "FixedArray") c)) inner.1)
to_token-IsEmitted (ParamType.tuple ps) e h = absurd h
to_token-IsEmitted ParamType.address e h = (_, refl)
to_token-IsEmitted ParamType.bytes e h = (_, refl)
to_token-IsEmitted (ParamType.int n) e h = (_, refl)
to_token-IsEmitted (ParamType.uint n) e h = (_, refl)
to_token-IsEmitted ParamType.bool e h = (_, refl)
to_token-IsEmitted ParamType.string e h = (_, refl)
to_token-IsEmitted (ParamType.fixed_bytes n) e h = (_, refl)

pub here : (v : Value) (env : Env) → run ((text "inner", v) ∷ env) (ident (text "inner")) ≡ ok v
unfolding run ethabi.Base.text_eq
here v env = refl

-- The items, one by one, collected in a vector.
pub mapped_run :
    (env : Env) (e c0 : Expr) (v : Value) (vs ws : Values)
    → run env e ≡ ok v
    → items v ≡ ok vs
    → each (λ v. run ((text "inner", v) ∷ env) c0) vs ≡ ok ws
    → run env (method (mapped e (text "inner") c0) (text "collect")) ≡ ok (Run.vec ws)
unfolding run ethabi.Base.text_eq
mapped_run env e c0 v vs ws h hv he =
    let last : Result Values → Result Value =
      λ r. (r >>= λ ws. ok (Run.iter ws)) >>= λ v. value_method v (text "collect") in
    let all : Result Values → Result Value = λ r.
      (r >>= λ vs. each (λ v. run ((text "inner", v) ∷ env) c0) vs >>= λ ws. ok (Run.iter ws))
      >>= λ v. value_method v (text "collect") in
    ap (λ r. all (r >>= items)) h ∙ ap all hv ∙ ap last he

-- A block that makes one token of the tokens of the items.
collected :
    (env : Env) (e c0 : Expr) (name : Bytes) (v : Value) (vs : Values) (ts : Tokens) (made : Token)
    → run env e ≡ ok v
    → items v ≡ ok vs
    → each (λ v. run ((text "inner", v) ∷ env) c0) vs ≡ ok (values_of ts)
    → make_token name (Run.vec (values_of ts)) ≡ ok (Run.token made)
    → run env (array_block e name c0) ≡ ok (Run.token made)
unfolding run ethabi.Base.text_eq
collected env e c0 name v vs ts made h hv he hm =
    ap (λ r. r >>= λ v. make_token name v) (mapped_run env e c0 v vs (values_of ts) h hv he) ∙ hm

made_array :
    (ts : Tokens)
    → (make_token (text "Array") (Run.vec (values_of ts)) ≡ ok (Run.token (Token.array ts)))
      × (make_token (text "FixedArray") (Run.vec (values_of ts))
          ≡ ok (Run.token (Token.fixed_array ts)))
unfolding make_token ethabi.Base.text_eq
made_array ts = (
  ap (λ r. r >>= λ ts. ok (Run.token (Token.array ts))) (tokens_of-values_of ts),
  ap (λ r. r >>= λ ts. ok (Run.token (Token.fixed_array ts))) (tokens_of-values_of ts),
)

-- The fragments without an inner one.
flat_run :
    (env : Env) (e : Expr) (name : Bytes) (v : Value) (t : Token)
    → run env e ≡ ok v
    → make_token name v ≡ ok (Run.token t)
    → run env (token_variant name e) ≡ ok (Run.token t)
unfolding run
flat_run env e name v t h hm = ap (λ r. r >>= λ v. make_token name v) h ∙ hm

byte_run :
    (env : Env) (e : Expr) (v : Value) (bs : Bytes)
    → run env e ≡ ok v
    → value_method v (text "as_ref") ≡ ok (Run.byte_slice bs)
    → run env
        (token_variant (text "FixedBytes") (method (method e (text "as_ref")) (text "to_vec")))
      ≡ ok (Run.token (Token.fixed_bytes bs))
unfolding run ethabi.Base.text_eq
byte_run env e v bs h hm =
    ap
      (λ r.
        ((r >>= λ v. value_method v (text "as_ref")) >>= λ v. value_method v (text "to_vec"))
        >>= λ v. make_token (text "FixedBytes") v)
      h
    ∙ ap
        (λ r. (r >>= λ v. value_method v (text "to_vec")) >>= λ v. make_token (text "FixedBytes") v)
        hm

pub emitted :
    (env : Env) (a c : Expr) (v : Value) → ok a ≡ ok c → run env a ≡ ok v → run env c ≡ ok v
emitted env a c v h r = let same : a ≡ c = cc in subst (λ c. run env c ≡ ok v) same r

-- The fragment that `to_token` emits for an expression makes the token of the expression's value.
mutual
  unfolding to_token make_token value_method ethabi.Base.text_eq

  pub run-to_token :
      {p : ParamType} {v : Value} {t : Token} (env : Env) (e c : Expr)
      → Carries p v t
      → to_token e p ≡ ok c
      → run env e ≡ ok v
      → run env c ≡ ok (Run.token t)
  run-to_token env e c (address {bs}) hc h =
      emitted env (token_variant (text "Address") e) c (Run.token (Token.address bs)) hc
        (flat_run env e (text "Address") _ (Token.address bs) h refl)
  run-to_token env e c (bytes {bs}) hc h =
      emitted env (token_variant (text "Bytes") e) c (Run.token (Token.bytes bs)) hc
        (flat_run env e (text "Bytes") _ (Token.bytes bs) h refl)
  run-to_token env e c (int {i} {n}) hc h =
      emitted env (token_variant (text "Int") e) c (Run.token (Token.int i)) hc
        (flat_run env e (text "Int") _ (Token.int i) h refl)
  run-to_token env e c (uint {i} {n}) hc h =
      emitted env (token_variant (text "Uint") e) c (Run.token (Token.uint i)) hc
        (flat_run env e (text "Uint") _ (Token.uint i) h refl)
  run-to_token env e c (bool {b}) hc h =
      emitted env (token_variant (text "Bool") e) c (Run.token (Token.bool b)) hc
        (flat_run env e (text "Bool") _ (Token.bool b) h refl)
  run-to_token env e c (string {s}) hc h =
      emitted env (token_variant (text "String") e) c (Run.token (Token.string s)) hc
        (flat_run env e (text "String") _ (Token.string s) h refl)
  run-to_token env e c (hash {bs} {n} k l) hc h =
      emitted env _ c (Run.token (Token.fixed_bytes bs)) hc (byte_run env e (Run.hash bs) bs h refl)
  run-to_token env e c (fixed_bytes {bs} {n} k l) hc h =
      emitted env _ c (Run.token (Token.fixed_bytes bs)) hc
        (byte_run env e (Run.byte_array bs) bs h refl)
  run-to_token env e c (vec {p} {vs} {ts} all) hc h =
      let inner =
        bind_ok (to_token (ident (text "inner")) p) (λ i. ok (array_block e (text "Array") i)) c
          hc in
      emitted env (array_block e (text "Array") inner.0) c (Run.token (Token.array ts)) inner.2 (
        collected env e inner.0 (text "Array") (Run.vec vs) vs ts (Token.array ts) h refl
          (each-to_token env inner.0 all inner.1) (made_array ts).0)
  run-to_token env e c (array {p} {n} {vs} {ts} all k) hc h =
      let inner =
        bind_ok (to_token (ident (text "inner")) p) (λ i. ok (array_block e (text "FixedArray") i))
          c hc in
      emitted env (array_block e (text "FixedArray") inner.0) c (Run.token (Token.fixed_array ts))
        inner.2
        (collected env e inner.0 (text "FixedArray") (Run.array vs) vs ts (Token.fixed_array ts) h
          refl (each-to_token env inner.0 all inner.1) (made_array ts).1)

  each-to_token :
      {p : ParamType} {vs : Values} {ts : Tokens} (env : Env) (c : Expr)
      → AllCarry p vs ts
      → to_token (ident (text "inner")) p ≡ ok c
      → each (λ v. run ((text "inner", v) ∷ env) c) vs ≡ ok (values_of ts)
  each-to_token env c nil hc = refl
  each-to_token env c (cons {v} {vs} {t} {ts} first rest) hc =
      let one =
        run-to_token ((text "inner", v) ∷ env) (ident (text "inner")) c first hc (here v env) in
      ap
        (λ r.
          r >>= λ w. each (λ v. run ((text "inner", v) ∷ env) c) vs >>= λ ws. ok (Run.cons w ws))
        one
      ∙ ap (λ r. r >>= λ ws. ok (Run.cons (Run.token t) ws)) (each-to_token env c rest hc)

-- The same for an array of fixed size whose items are in a vector.
pub run_vec-to_token :
    {p : ParamType} {vs : Values} {ts : Tokens} (n : ℕ) (env : Env) (e c : Expr)
    → AllCarry p vs ts
    → to_token e (ParamType.fixed_array p n) ≡ ok c
    → run env e ≡ ok (Run.vec vs)
    → run env c ≡ ok (Run.token (Token.fixed_array ts))
unfolding to_token
run_vec-to_token {p} {vs} {ts} n env e c all hc h =
    let inner =
      bind_ok (to_token (ident (text "inner")) p) (λ i. ok (array_block e (text "FixedArray") i)) c
        hc in
    emitted env (array_block e (text "FixedArray") inner.0) c (Run.token (Token.fixed_array ts))
      inner.2
      (collected env e inner.0 (text "FixedArray") (Run.vec vs) vs ts (Token.fixed_array ts) h refl
        (each-to_token env inner.0 all inner.1) (made_array ts).1)
