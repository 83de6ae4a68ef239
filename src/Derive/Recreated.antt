-- ===== src/Derive/Recreated.antt =====
-- The functions that the generated code recreates (derive/src/function.rs), beside those of the
-- contract.
use ethabi.Base.{
  Bool, true, false, not, ◌||◌, if◌then◌else◌, text, text_eq, some, none, List, [], ◌∷◌, length,
  Bytes, Result, ok, ◌>>=◌, ◌≡◌, refl, ap, ◌∙◌,
}
use ethabi.ParamType.{ParamTypes}
use ethabi.Param.{Param, kinds}
use ethabi.Function
use ethabi.Function.{Function}
use ethabi.Derive.Run.{run_type, refused}
use ethabi.Derive.Keywords.{is_keyword, are_distinct}
use ethabi.Derive.Idents.{
  AreIdents, IsModuleName, new_ident_ok, input_texts, input_names-AreIdents, map-definitions,
}
use ethabi.Derive.Emitted.{
  AreEmitted, run_type-to_syntax_string, declarations-AreEmitted, tokenize_inputs-AreEmitted,
  get_output_kinds-AreEmitted, output_implementation-AreEmitted,
}
use ethabi.Derive.Parts.{
  Crates, ParamExpr, to_ethabi_param, to_ethabi_param_vec, definitions, get_template_names,
  output_implementation, tokenize_inputs, FunctionInterface, from_function, FunctionExpr,
  function_expr,
}

-- Running the expressions of the fields.
abbrev pub run_params : List ParamExpr → Result (List Param)
run_params [] = ok []
run_params (e ∷ es) =
    let rest = run_params es in
    run_type e.kind >>= λ kind.
    rest >>= λ ps. ok (record { name = e.name; kind = kind; internal_type = none } ∷ ps)

-- `let f = function()` in the generated functions hides a parameter that is named f, and would call one
-- that is named function.
abbrev pub is_taken : Bytes → Bool
is_taken n = is_keyword n || text_eq n (text "f") || text_eq n (text "function")

-- What `function()` returns, in a module whose names Rust accepts.
abbrev pub run_function : FunctionExpr → Result Function
run_function f =
    if is_keyword f.module_name || not (are_distinct is_taken f.params)
    then refused
    else run_params f.inputs >>= λ inputs. run_params f.outputs >>= λ outputs. ok (record {
      name = f.name;
      inputs = inputs;
      outputs = outputs;
      constant = some f.constant;
      state_mutability = f.state_mutability;
    })

-- The parameters without their internal types.
abbrev pub stripped : List Param → List Param
stripped [] = []
stripped (p ∷ ps) = record { name = p.name; kind = p.kind; internal_type = none } ∷ stripped ps

pub kinds-stripped : (ps : List Param) → kinds (stripped ps) ≡ kinds ps
unfolding kinds
kinds-stripped [] = refl
kinds-stripped (p ∷ ps) = ap (ParamTypes.cons p.kind) (kinds-stripped ps)

pub run_params-to_ethabi_param_vec :
    (ps : List Param)
    → AreEmitted ps
    → (es : List ParamExpr) × (to_ethabi_param_vec ps ≡ ok es) × (run_params es ≡ ok (stripped ps))
unfolding to_ethabi_param_vec to_ethabi_param
run_params-to_ethabi_param_vec [] h = ([], refl, refl)
run_params-to_ethabi_param_vec (p ∷ ps) h =
    let kind = run_type-to_syntax_string p.kind h.0 in
    let rest = run_params-to_ethabi_param_vec ps h.1 in
    let first : ParamExpr = record { name = p.name; kind = kind.0 } in
    (
      first ∷ rest.0,
      ap
            (λ r. (r >>= λ k. ok (record { name = p.name; kind = k })) >>= λ t.
              to_ethabi_param_vec ps >>= λ ts. ok (t ∷ ts))
            kind.1
          ∙ ap (λ r. r >>= λ ts. ok (first ∷ ts)) rest.1,
      ap
            (λ r. r >>= λ k. run_params rest.0 >>= λ ps.
              ok (record { name = p.name; kind = k; internal_type = none } ∷ ps))
            kind.2
          ∙ ap
              (λ r.
                r >>= λ ps. ok (record { name = p.name; kind = p.kind; internal_type = none } ∷ ps))
              rest.2,
    )

-- The function that the generated code works with.
abbrev pub recreated : Function → Function
recreated f = record {
  name = f.name;
  inputs = stripped f.inputs;
  outputs = stripped f.outputs;
  constant = some (elim f.constant [ some b ↦ b | none ↦ false ]);
  state_mutability = f.state_mutability;
}

-- The names of the function and of its inputs make identifiers that Rust accepts.
abbrev pub IsNamed : Crates → Function → Type 0
IsNamed crates f =
    AreIdents crates (input_texts crates 0 f.inputs)
    × (are_distinct is_taken (input_texts crates 0 f.inputs) ≡ true)
    × IsModuleName crates f.name

pub run_function-from_function :
    (crates : Crates) (f : Function)
    → IsNamed crates f
    → AreEmitted f.inputs
    → AreEmitted f.outputs
    → (g : FunctionInterface) × (from_function crates f ≡ ok g)
      × ((function_expr crates g >>= run_function) ≡ ok (recreated f))
      × (g.name ≡ f.name)
      × (output_implementation f.outputs ≡ ok g.implementation)
      × (tokenize_inputs (input_texts crates 0 f.inputs) f.inputs ≡ ok g.tokenize)
unfolding from_function function_expr
run_function-from_function crates f named hi ho =
    let names = input_texts crates 0 f.inputs in
    let made = input_names-AreIdents crates f.inputs named.0 in
    let declared = declarations-AreEmitted 0 f.inputs hi in
    let tokenized = tokenize_inputs-AreEmitted names f.inputs hi in
    let result_ = get_output_kinds-AreEmitted f.outputs ho in
    let implemented = output_implementation-AreEmitted f.outputs ho in
    let inputs = run_params-to_ethabi_param_vec f.inputs hi in
    let outputs = run_params-to_ethabi_param_vec f.outputs ho in
    let g : FunctionInterface = record {
      name = f.name;
      tokenize = tokenized.0;
      template_declarations = declared.0;
      template_definitions = definitions names (get_template_names 0 (length f.inputs));
      recreate_inputs = inputs.0;
      implementation = implemented.0;
      result = result_.0;
      recreate_outputs = outputs.0;
      constant = elim f.constant [ some b ↦ b | none ↦ false ];
      state_mutability = f.state_mutability;
    } in
    (
      g,
      (rw (made, declared.1, tokenized.1, result_.1, implemented.1, inputs.1, outputs.1) refl),
      (rw
          (
            new_ident_ok crates (crates.to_snake_case f.name) named.2.0,
            map-definitions crates 0 0 f.inputs,
            named.1,
            named.2.1,
            inputs.2,
            outputs.2,
          )
          refl),
      refl,
      implemented.1,
      tokenized.1,
    )

pub recreated_types :
    (f : Function)
    → (Function.input_param_types (recreated f) ≡ Function.input_param_types f)
      × (Function.output_param_types (recreated f) ≡ Function.output_param_types f)
unfolding Function.input_param_types Function.output_param_types
recreated_types f = (kinds-stripped f.inputs, kinds-stripped f.outputs)
