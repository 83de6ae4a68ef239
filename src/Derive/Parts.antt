-- ===== src/Derive/Parts.antt =====
-- derive/src/lib.rs, derive/src/function.rs and derive/src/constructor.rs: what is generated for
-- functions and constructors.
use ethabi.Base.{
  ℕ, zero, suc, ◌==◌, Bool, false, if◌then◌else◌, some, none, List, [], ◌∷◌, ◌++◌, length, map,
  Bytes, Result, ok, panic, ◌>>=◌, text, text_eq, decimal,
}
use ethabi.ParamType.{ParamType, array, fixed_array, tuple}
use ethabi.Param.{Param, StateMutability}
use ethabi.Constructor.{Constructor}
use ethabi.Function.{Function}
use ethabi.Derive.{
  RustType, TypeExpr, Expr, ident, method, expect, to_syntax_string, rust_type, from_template_param,
  to_token, from_token,
}

-- The crates heck, and proc_macro2, whose identifiers are made of what `is_ident` allows.
pub record Crates : Type 0 where
  pub is_ident : Bytes → Bool
  pub to_snake_case : Bytes → Bytes
  pub to_upper_camel_case : Bytes → Bytes

abbrev pub both {ℓ κ} : {S : Type ℓ} {T : Type κ} → (S → Result T) → List S → Result (List T)
both f [] = ok []
both f (s ∷ ss) = let rest = both f ss in f s >>= λ t. rest >>= λ ts. ok (t ∷ ts)

-- `ethabi::Param { name: #name.to_owned(), kind: #kind, internal_type: None }`
pub record ParamExpr : Type 0 where
  pub name : Bytes
  pub kind : TypeExpr

unfoldable pub to_ethabi_param : Param → Result ParamExpr
unfolding to_syntax_string
to_ethabi_param p = to_syntax_string p.kind >>= λ kind. ok (record { name = p.name; kind = kind })

unfoldable pub to_ethabi_param_vec : List Param → Result (List ParamExpr)
unfolding to_ethabi_param
to_ethabi_param_vec params = both to_ethabi_param params

-- The bounds on the type parameters `T` and `U` of a generated function.
pub data Declaration : Type 0 where
  -- `T: Into<t>`
  into : Bytes → RustType → Declaration
  -- `T: IntoIterator<Item = U>, U: Into<t>`
  into_items : Bytes → Bytes → RustType → Declaration
  -- `T: Into<[U; n]>, U: Into<t>`
  into_sized : Bytes → Bytes → ℕ → RustType → Declaration

unfoldable pub template_param_type : ParamType → ℕ → Result Declaration
unfolding rust_type
template_param_type input index =
    let t_ident = text "T" ++ decimal index in
    let u_ident = text "U" ++ decimal index in
    elim input [
      | array kind ↦ rust_type kind >>= λ t. ok (into_items t_ident u_ident t)
      | fixed_array kind size ↦ rust_type kind >>= λ t. ok (into_sized t_ident u_ident size t)
      | tuple _ ↦ panic
      | other ↦ rust_type other >>= λ t. ok (into t_ident t)
    ]

module _ (crates : Crates) where
  unfoldable pub rust_variable : Bytes → Bytes
  rust_variable name =
      if text_eq name (text "self") then text "_self" else crates.to_snake_case name

  -- `syn::Ident::new` panics on a text that is no identifier.
  unfoldable pub new_ident : Bytes → Result Bytes
  new_ident name = if crates.is_ident name then ok name else panic

  unfoldable pub input_name : ℕ → Param → Bytes
  unfolding rust_variable
  input_name index p =
      if length p.name == 0 then text "param" ++ decimal index else rust_variable p.name

  -- `enumerate` from the given index.
  unfoldable pub input_names_from : ℕ → List Param → Result (List Bytes)
  unfolding new_ident input_name
  input_names_from index [] = ok []
  input_names_from index (p ∷ ps) = do
    name ← new_ident (input_name index p)
    names ← input_names_from (suc index) ps
    ok (name ∷ names)

  unfoldable pub input_names : List Param → Result (List Bytes)
  unfolding input_names_from
  input_names inputs = input_names_from 0 inputs

-- `T0`, `T1` and so on, for each of the kinds; these are identifiers.
unfoldable pub get_template_names : ℕ → ℕ → List Bytes
get_template_names index zero = []
get_template_names index (suc n) = (text "T" ++ decimal index) ∷ get_template_names (suc index) n

unfoldable pub declarations : ℕ → List Param → Result (List Declaration)
unfolding template_param_type
declarations index [] = ok []
declarations index (p ∷ ps) = do
  d ← template_param_type p.kind index
  ds ← declarations (suc index) ps
  ok (d ∷ ds)

-- `#param_name: #template_name` for each.
unfoldable pub definitions : List Bytes → List Bytes → List (Bytes × Bytes)
definitions (n ∷ ns) (t ∷ ts) = (n, t) ∷ definitions ns ts
definitions _ _ = []

-- `to_token(&from_template_param(&param.kind, param_name), &param.kind)` for each.
unfoldable pub tokenize_inputs : List Bytes → List Param → Result (List Expr)
unfolding to_token from_template_param
tokenize_inputs (n ∷ ns) (p ∷ ps) = do
  e ← to_token (from_template_param p.kind n) p.kind
  es ← tokenize_inputs ns ps
  ok (e ∷ es)
tokenize_inputs _ _ = ok []

-- `()`, a type, or a tuple of types.
pub data OutputKinds : Type 0 where
  none_ : OutputKinds
  one_ : RustType → OutputKinds
  many : List RustType → OutputKinds

unfoldable pub get_output_kinds : List Param → Result OutputKinds
unfolding rust_type
get_output_kinds [] = ok none_
get_output_kinds (p ∷ []) = rust_type p.kind >>= λ t. ok (one_ t)
get_output_kinds (p ∷ q ∷ ps) =
    both (λ (p : Param). rust_type p.kind) (p ∷ q ∷ ps) >>= λ ts. ok (many ts)

-- The body of `decode`: nothing, the first token as `out`, or one token after the other from `out`.
pub data Decoding : Type 0 where
  nothing : Decoding
  first : Expr → Decoding
  in_turn : List Expr → Decoding

-- `out.next().expect(INTERNAL_ERR)`
abbrev pub next_out : Expr
next_out = expect (method (ident (text "out")) (text "next"))

unfoldable pub output_implementation : List Param → Result Decoding
unfolding from_token
output_implementation [] = ok nothing
output_implementation (p ∷ []) = from_token p.kind (ident (text "out")) >>= λ e. ok (first e)
output_implementation (p ∷ q ∷ ps) =
    both (λ (p : Param). from_token p.kind next_out) (p ∷ q ∷ ps) >>= λ es. ok (in_turn es)

-- What the generated module of a function is made of.
pub record FunctionInterface : Type 0 where
  pub name : Bytes
  pub tokenize : List Expr
  pub template_declarations : List Declaration
  pub template_definitions : List (Bytes × Bytes)
  pub recreate_inputs : List ParamExpr
  pub implementation : Decoding
  pub result : OutputKinds
  pub recreate_outputs : List ParamExpr
  pub constant : Bool
  pub state_mutability : StateMutability

pub record ConstructorInterface : Type 0 where
  pub inputs_declarations : List Declaration
  pub inputs_definitions : List (Bytes × Bytes)
  pub tokenize : List Expr
  pub recreate_inputs : List ParamExpr

module _ (crates : Crates) where
  unfoldable pub from_function : Function → Result FunctionInterface
  unfolding input_names declarations definitions get_template_names tokenize_inputs get_output_kinds
      output_implementation to_ethabi_param_vec
  from_function f = input_names crates f.inputs >>= λ names. declarations 0 f.inputs >>= λ declared.
      tokenize_inputs names f.inputs >>= λ tokenized.
      get_output_kinds f.outputs >>= λ output_result.
      output_implementation f.outputs >>= λ implementation.
      to_ethabi_param_vec f.inputs >>= λ inputs. to_ethabi_param_vec f.outputs >>= λ outputs.
      ok (record {
        name = f.name;
        tokenize = tokenized;
        template_declarations = declared;
        template_definitions = definitions names (get_template_names 0 (length f.inputs));
        recreate_inputs = inputs;
        implementation = implementation;
        result = output_result;
        recreate_outputs = outputs;
        constant = elim f.constant [ some b ↦ b | none ↦ false ];
        state_mutability = f.state_mutability;
      })

  unfoldable pub from_constructor : Constructor → Result ConstructorInterface
  unfolding input_names declarations definitions get_template_names tokenize_inputs
      to_ethabi_param_vec
  from_constructor c = input_names crates c.inputs >>= λ names.
      declarations 0 c.inputs >>= λ declared. tokenize_inputs names c.inputs >>= λ tokenized.
      to_ethabi_param_vec c.inputs >>= λ inputs. ok (record {
        inputs_declarations = declared;
        inputs_definitions =
            (text "code", text "ethabi::Bytes")
            ∷ definitions names (get_template_names 0 (length c.inputs));
        tokenize = tokenized;
        recreate_inputs = inputs;
      })

-- The name of the generated module, the parameters of its functions, and `function()` as an
-- expression of its fields.
pub record FunctionExpr : Type 0 where
  pub module_name : Bytes
  pub params : List Bytes
  pub name : Bytes
  pub inputs : List ParamExpr
  pub outputs : List ParamExpr
  pub constant : Bool
  pub state_mutability : StateMutability

unfoldable pub function_expr : Crates → FunctionInterface → Result FunctionExpr
unfolding new_ident
function_expr crates f = new_ident crates (crates.to_snake_case f.name) >>= λ module_name.
    ok (record {
      module_name = module_name;
      params = map (λ d. d.0) f.template_definitions;
      name = f.name;
      inputs = f.recreate_inputs;
      outputs = f.recreate_outputs;
      constant = f.constant;
      state_mutability = f.state_mutability;
    })
