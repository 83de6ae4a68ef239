-- ===== src/Derive/Topics.antt =====
-- The fragments of `from_token` in the generated `parse_log` (derive/src/event.rs), on the tokens that
-- ethabi/src/event.rs reads for indexed parameters.
use ethabi.Base.{
  true, ℕ, ◌==◌, List, [], ◌∷◌, Bytes, Result, ok, err, panic, ◌>>=◌, bind_ok, text, ◌≡◌, ◌≢◌, refl,
  ap, ◌∙◌, subst,
}
use ethabi.ParamType.{ParamType}
use ethabi.Token.{Token, type_check}
use ethabi.Event.{convert_topic_param_type}
use ethabi.Derive.{Expr, ident, method, expect, from_token}
use ethabi.Derive.Run
use ethabi.Derive.Run.{Value, Values, Env, run, expected, items, each, value_method, token_method}
use ethabi.Derive.EventParts.{log_iter}
use ethabi.Derive.Values.{from_token-IsReadable, IsReadable, array_items}

missing :
    (env : Env) (e c : Expr) (name bs : Bytes)
    → ok (expect (method e name)) ≡ ok c
    → run env e ≡ ok (Run.token (Token.fixed_bytes bs))
    → (value_method (Run.token (Token.fixed_bytes bs)) name >>= expected) ≡ panic
    → run env c ≡ panic
unfolding run
missing env e c name bs hc h k =
    let same : expect (method e name) ≡ c = cc in
    subst (λ c. run env c ≡ panic) same
      (ap (λ r. (r >>= λ v. value_method v name) >>= expected) h ∙ k)

-- The value of a token in a `LogParam` is asked for as a value of the parameter's type.
from_token-panic :
    (p : ParamType) (bs : Bytes) (env : Env) (e c : Expr)
    → IsReadable p
    → convert_topic_param_type p ≢ p
    → from_token p e ≡ ok c
    → run env e ≡ ok (Run.token (Token.fixed_bytes bs))
    → run env c ≡ panic
unfolding from_token convert_topic_param_type run value_method ethabi.Base.text_eq
from_token-panic ParamType.string bs env e c r other hc h =
    missing env e c (text "into_string") bs hc h refl
from_token-panic ParamType.bytes bs env e c r other hc h =
    missing env e c (text "into_bytes") bs hc h refl
from_token-panic (ParamType.array p) bs env e c r other hc h =
    let inner = bind_ok (from_token p (ident (text "inner"))) (λ i. ok (array_items e i)) c hc in
    let same : array_items e inner.0 ≡ c = cc in
    subst (λ c. run env c ≡ panic) same
      (ap
        (λ r.
          (((r >>= λ v. value_method v (text "into_array")) >>= expected) >>= items >>= λ vs.
          each (λ v. run ((text "inner", v) ∷ env) inner.0) vs >>= λ ws. ok (Run.iter ws))
          >>= λ v. value_method v (text "collect"))
        h)
from_token-panic (ParamType.fixed_array p n) bs env e c r other hc h = absurd r
from_token-panic (ParamType.tuple ps) bs env e c r other hc h = absurd r
from_token-panic ParamType.address bs env e c r other hc h = absurd (other refl)
from_token-panic ParamType.bool bs env e c r other hc h = absurd (other refl)
from_token-panic (ParamType.int n) bs env e c r other hc h = absurd (other refl)
from_token-panic (ParamType.uint n) bs env e c r other hc h = absurd (other refl)
from_token-panic (ParamType.fixed_bytes n) bs env e c r other hc h = absurd (other refl)

-- `log` in the generated `parse_log`, where the next parameter is the given one.
abbrev pub log_env : Bytes → Token → Values → Env
log_env name t rest = (text "log", Run.iter (Run.cons (Run.log_param name t) rest)) ∷ []

run-log_iter :
    (name : Bytes) (t : Token) (rest : Values)
    → run (log_env name t rest) log_iter ≡ ok (Run.token t)
unfolding run value_method ethabi.Base.text_eq
run-log_iter name t rest = refl

-- What checks as the type that a converted topic is read with.
fixed_bytes_only :
    (t : Token)
    → type_check t (ParamType.fixed_bytes 32) ≡ ok true
    → (bs : Bytes) × (t ≡ Token.fixed_bytes bs)
unfolding type_check
fixed_bytes_only (Token.fixed_bytes bs) h = (bs, refl)
fixed_bytes_only (Token.address a) h = absurd (cc)
fixed_bytes_only (Token.bytes bs) h = absurd (cc)
fixed_bytes_only (Token.int i) h = absurd (cc)
fixed_bytes_only (Token.uint i) h = absurd (cc)
fixed_bytes_only (Token.bool b) h = absurd (cc)
fixed_bytes_only (Token.string s) h = absurd (cc)
fixed_bytes_only (Token.fixed_array ts) h = absurd (cc)
fixed_bytes_only (Token.array ts) h = absurd (cc)
fixed_bytes_only (Token.tuple ts) h = absurd (cc)

converted :
    (p : ParamType) (t : Token)
    → convert_topic_param_type p ≢ p
    → type_check t (convert_topic_param_type p) ≡ ok true
    → (bs : Bytes) × (t ≡ Token.fixed_bytes bs)
unfolding convert_topic_param_type
converted ParamType.string t other h = fixed_bytes_only t h
converted ParamType.bytes t other h = fixed_bytes_only t h
converted (ParamType.array p) t other h = fixed_bytes_only t h
converted (ParamType.fixed_array p n) t other h = fixed_bytes_only t h
converted (ParamType.tuple ps) t other h = fixed_bytes_only t h
converted ParamType.address t other h = absurd (other refl)
converted ParamType.bool t other h = absurd (other refl)
converted (ParamType.int n) t other h = absurd (other refl)
converted (ParamType.uint n) t other h = absurd (other refl)
converted (ParamType.fixed_bytes n) t other h = absurd (other refl)

-- For a parameter type without tuples and arrays of fixed size that is read as another type from a
-- topic: the generator makes an expression for the field of the generated `parse_log`, and it panics
-- where the next parameter of the log holds any token that checks as that other type.
pub from_token-topic :
    (p : ParamType) (name : Bytes) (t : Token) (rest : Values)
    → IsReadable p
    → convert_topic_param_type p ≢ p
    → type_check t (convert_topic_param_type p) ≡ ok true
    → (c : Expr) × (from_token p log_iter ≡ ok c) × (run (log_env name t rest) c ≡ panic)
from_token-topic p name t rest r other h =
    let c = from_token-IsReadable p log_iter r in
    let topic = converted p t other h in
    (
      c.0,
      c.1,
      from_token-panic p topic.0 (log_env name t rest) log_iter c.0 r other c.1
          (run-log_iter name t rest ∙ ap (λ t. ok (Run.token t)) topic.1),
    )
