-- ===== src/Derive/Emitted.antt =====
-- For every type but tuples the generator (derive/src/lib.rs) has a fragment.
use ethabi.Base.{
  ℕ, zero, suc, ◌+◌, ◌==◌, Bool, true, false, if◌then◌else◌, Option, some, none, List, [], ◌∷◌,
  ◌++◌, length, take, All, Bytes, Result, ok, err, panic, ◌>>=◌, text, decimal, ◌≡◌, refl, sym, ap,
  ap₂, ◌∙◌, subst,
}
use ethabi.ParamType.{ParamType}
use ethabi.Param.{Param}
use ethabi.Derive
use ethabi.Derive.Parts
use ethabi.Derive.{
  TypeExpr, Expr, RustType, ident, to_syntax_string, rust_type, to_token, from_token,
  from_template_param,
}
use ethabi.Derive.Run.{run_type}
use ethabi.Derive.Tokens.{IsEmitted, to_token-IsEmitted}
use ethabi.Derive.Parts.{
  Crates, both, ParamExpr, to_ethabi_param, to_ethabi_param_vec, Declaration, template_param_type,
  declarations, input_names, tokenize_inputs, definitions, get_template_names, get_output_kinds,
  OutputKinds, Decoding, output_implementation, next_out, FunctionInterface, from_function,
  FunctionExpr, function_expr,
}

-- The expression for a type is that type.
pub run_type-to_syntax_string :
    (p : ParamType)
    → IsEmitted p
    → (c : TypeExpr) × (to_syntax_string p ≡ ok c) × (run_type c ≡ ok p)
unfolding to_syntax_string run_type ethabi.Base.text_eq
run_type-to_syntax_string (ParamType.array p) h =
    let inner = run_type-to_syntax_string p h in
    (
      _,
      ap (λ r. r >>= λ q. ok (Derive.boxed (text "Array") q)) inner.1,
      ap (λ r. r >>= λ p. ok (ParamType.array p)) inner.2,
    )
run_type-to_syntax_string (ParamType.fixed_array p n) h =
    let inner = run_type-to_syntax_string p h in
    (
      _,
      ap (λ r. r >>= λ q. ok (Derive.boxed_sized (text "FixedArray") q n)) inner.1,
      ap (λ r. r >>= λ p. ok (ParamType.fixed_array p n)) inner.2,
    )
run_type-to_syntax_string (ParamType.tuple ps) h = absurd h
run_type-to_syntax_string ParamType.address h = (_, refl, refl)
run_type-to_syntax_string ParamType.bytes h = (_, refl, refl)
run_type-to_syntax_string (ParamType.int n) h = (_, refl, refl)
run_type-to_syntax_string (ParamType.uint n) h = (_, refl, refl)
run_type-to_syntax_string ParamType.bool h = (_, refl, refl)
run_type-to_syntax_string ParamType.string h = (_, refl, refl)
run_type-to_syntax_string (ParamType.fixed_bytes n) h = (_, refl, refl)

pub rust_type-IsEmitted : (p : ParamType) → IsEmitted p → (t : RustType) × (rust_type p ≡ ok t)
unfolding rust_type
rust_type-IsEmitted (ParamType.array p) h =
    (_, ap (λ r. r >>= λ t. ok (Derive.vec t)) (rust_type-IsEmitted p h).1)
rust_type-IsEmitted (ParamType.fixed_array p n) h =
    (_, ap (λ r. r >>= λ t. ok (Derive.sized t n)) (rust_type-IsEmitted p h).1)
rust_type-IsEmitted (ParamType.tuple ps) h = absurd h
rust_type-IsEmitted ParamType.address h = (_, refl)
rust_type-IsEmitted ParamType.bytes h = (_, refl)
rust_type-IsEmitted (ParamType.int n) h = (_, refl)
rust_type-IsEmitted (ParamType.uint n) h = (_, refl)
rust_type-IsEmitted ParamType.bool h = (_, refl)
rust_type-IsEmitted ParamType.string h = (_, refl)
rust_type-IsEmitted (ParamType.fixed_bytes n) h = (_, refl)

pub from_token-IsEmitted :
    (p : ParamType) (e : Expr) → IsEmitted p → (c : Expr) × (from_token p e ≡ ok c)
unfolding from_token
from_token-IsEmitted (ParamType.array p) e h =
    let inner = from_token-IsEmitted p (ident (text "inner")) h in
    (
      _,
      ap
          (λ r. r >>= λ i. ok (
            Derive.method
              (Derive.mapped (Derive.expect (Derive.method e (text "into_array"))) (text "inner") i)
              (text "collect")))
          inner.1,
    )
from_token-IsEmitted (ParamType.fixed_array p n) e h =
    let inner = from_token-IsEmitted p (ident (text "inner")) h in
    (
      _,
      ap
          (λ r. r >>= λ i. ok (
            Derive.next_items
              (Derive.mapped (Derive.expect (Derive.method e (text "to_array"))) (text "inner") i)
              n))
          inner.1,
    )
from_token-IsEmitted (ParamType.tuple ps) e h = absurd h
from_token-IsEmitted ParamType.address e h = (_, refl)
from_token-IsEmitted ParamType.bytes e h = (_, refl)
from_token-IsEmitted (ParamType.int n) e h = (_, refl)
from_token-IsEmitted (ParamType.uint n) e h = (_, refl)
from_token-IsEmitted ParamType.bool e h = (_, refl)
from_token-IsEmitted ParamType.string e h = (_, refl)
from_token-IsEmitted (ParamType.fixed_bytes n) e h = (_, refl)

pub template_param_type-IsEmitted :
    (p : ParamType) (i : ℕ) → IsEmitted p → (d : Declaration) × (template_param_type p i ≡ ok d)
unfolding template_param_type
template_param_type-IsEmitted (ParamType.array p) i h = (
  _,
  ap (λ r. r >>= λ t. ok (Parts.into_items (text "T" ++ decimal i) (text "U" ++ decimal i) t))
      (rust_type-IsEmitted p h).1,
)
template_param_type-IsEmitted (ParamType.fixed_array p n) i h = (
  _,
  ap (λ r. r >>= λ t. ok (Parts.into_sized (text "T" ++ decimal i) (text "U" ++ decimal i) n t))
      (rust_type-IsEmitted p h).1,
)
template_param_type-IsEmitted (ParamType.tuple ps) i h = absurd h
template_param_type-IsEmitted ParamType.address i h = (
  _,
  ap (λ r. r >>= λ t. ok (Parts.into (text "T" ++ decimal i) t))
      (rust_type-IsEmitted ParamType.address h).1,
)
template_param_type-IsEmitted ParamType.bytes i h = (
  _,
  ap (λ r. r >>= λ t. ok (Parts.into (text "T" ++ decimal i) t))
      (rust_type-IsEmitted ParamType.bytes h).1,
)
template_param_type-IsEmitted (ParamType.int n) i h = (
  _,
  ap (λ r. r >>= λ t. ok (Parts.into (text "T" ++ decimal i) t))
      (rust_type-IsEmitted (ParamType.int n) h).1,
)
template_param_type-IsEmitted (ParamType.uint n) i h = (
  _,
  ap (λ r. r >>= λ t. ok (Parts.into (text "T" ++ decimal i) t))
      (rust_type-IsEmitted (ParamType.uint n) h).1,
)
template_param_type-IsEmitted ParamType.bool i h = (
  _,
  ap (λ r. r >>= λ t. ok (Parts.into (text "T" ++ decimal i) t))
      (rust_type-IsEmitted ParamType.bool h).1,
)
template_param_type-IsEmitted ParamType.string i h = (
  _,
  ap (λ r. r >>= λ t. ok (Parts.into (text "T" ++ decimal i) t))
      (rust_type-IsEmitted ParamType.string h).1,
)
template_param_type-IsEmitted (ParamType.fixed_bytes n) i h = (
  _,
  ap (λ r. r >>= λ t. ok (Parts.into (text "T" ++ decimal i) t))
      (rust_type-IsEmitted (ParamType.fixed_bytes n) h).1,
)

-- Lists of them.
pub both_ok {ℓ κ ρ} :
    {S : Type ℓ} {T : Type κ} (P : S → Type ρ) (f : S → Result T)
    → ((s : S) → P s → (t : T) × (f s ≡ ok t))
    → (ss : List S) → All P ss
    → (ts : List T) × (both f ss ≡ ok ts)
both_ok P f one [] h = ([], refl)
both_ok P f one (s ∷ ss) h =
    let first = one s h.0 in
    let rest = both_ok P f one ss h.1 in
    (
      first.0 ∷ rest.0,
      ap (λ r. r >>= λ t. both f ss >>= λ ts. ok (t ∷ ts)) first.1
          ∙ ap (λ r. r >>= λ ts. ok (first.0 ∷ ts)) rest.1,
    )

abbrev pub AreEmitted : List Param → Type 0
AreEmitted ps = All (λ (p : Param). IsEmitted p.kind) ps

pub declarations-AreEmitted :
    (i : ℕ) (ps : List Param)
    → AreEmitted ps
    → (ds : List Declaration) × (declarations i ps ≡ ok ds)
unfolding declarations
declarations-AreEmitted i [] h = ([], refl)
declarations-AreEmitted i (p ∷ ps) h =
    let first = template_param_type-IsEmitted p.kind i h.0 in
    let rest = declarations-AreEmitted (suc i) ps h.1 in
    (
      first.0 ∷ rest.0,
      ap (λ r. r >>= λ d. declarations (suc i) ps >>= λ ds. ok (d ∷ ds)) first.1
          ∙ ap (λ r. r >>= λ ds. ok (first.0 ∷ ds)) rest.1,
    )

pub tokenize_inputs-AreEmitted :
    (ns : List Bytes) (ps : List Param)
    → AreEmitted ps
    → (es : List Expr) × (tokenize_inputs ns ps ≡ ok es)
unfolding tokenize_inputs
tokenize_inputs-AreEmitted [] ps h = ([], refl)
tokenize_inputs-AreEmitted (n ∷ ns) [] h = ([], refl)
tokenize_inputs-AreEmitted (n ∷ ns) (p ∷ ps) h =
    let first = to_token-IsEmitted p.kind (from_template_param p.kind n) h.0 in
    let rest = tokenize_inputs-AreEmitted ns ps h.1 in
    (
      first.0 ∷ rest.0,
      ap (λ r. r >>= λ e. tokenize_inputs ns ps >>= λ es. ok (e ∷ es)) first.1
          ∙ ap (λ r. r >>= λ es. ok (first.0 ∷ es)) rest.1,
    )

pub get_output_kinds-AreEmitted :
    (ps : List Param) → AreEmitted ps → (k : OutputKinds) × (get_output_kinds ps ≡ ok k)
unfolding get_output_kinds
get_output_kinds-AreEmitted [] h = (_, refl)
get_output_kinds-AreEmitted (p ∷ []) h =
    (_, ap (λ r. r >>= λ t. ok (Parts.one_ t)) (rust_type-IsEmitted p.kind h.0).1)
get_output_kinds-AreEmitted (p ∷ q ∷ ps) h = (
  _,
  ap (λ r. r >>= λ ts. ok (Parts.many ts))
      (both_ok (λ (p : Param). IsEmitted p.kind) (λ (p : Param). rust_type p.kind)
        (λ p k. rust_type-IsEmitted p.kind k) (p ∷ q ∷ ps) h).1,
)

pub output_implementation-AreEmitted :
    (ps : List Param) → AreEmitted ps → (d : Decoding) × (output_implementation ps ≡ ok d)
unfolding output_implementation
output_implementation-AreEmitted [] h = (_, refl)
output_implementation-AreEmitted (p ∷ []) h = (
  _,
  ap (λ r. r >>= λ e. ok (Parts.first e)) (from_token-IsEmitted p.kind (ident (text "out")) h.0).1,
)
output_implementation-AreEmitted (p ∷ q ∷ ps) h = (
  _,
  ap (λ r. r >>= λ es. ok (Parts.in_turn es))
      (both_ok (λ (p : Param). IsEmitted p.kind) (λ (p : Param). from_token p.kind next_out)
        (λ p k. from_token-IsEmitted p.kind next_out k) (p ∷ q ∷ ps) h).1,
)
