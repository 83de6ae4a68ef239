-- ===== src/Derive/EventParts.antt =====
-- derive/src/event.rs and derive/src/contract.rs: what is generated for events, and for a contract.
use ethabi.Base.{
  ℕ, suc, ◌==◌, Bool, true, false, not, ◌&&◌, if◌then◌else◌, Option, some, none, List, [], ◌∷◌,
  ◌++◌, length, map, take, Bytes, Result, ok, ◌>>=◌, text, decimal,
}
use ethabi.Param.{EventParam}
use ethabi.Constructor.{Constructor}
use ethabi.Event.{Event, select}
use ethabi.Contract.{Contract, all_functions, all_events, constructor_of}
use ethabi.Derive.{
  RustType, TypeExpr, Expr, ident, method, expect, to_syntax_string, rust_type, to_token,
  from_token,
}
use ethabi.Derive.Parts.{
  Crates, new_ident, both, get_template_names, definitions, ConstructorInterface, from_constructor,
  FunctionInterface, from_function,
}

-- `ethabi::EventParam { name: #name.to_owned(), kind: #kind, indexed: #indexed }`
pub record EventParamExpr : Type 0 where
  pub name : Bytes
  pub kind : TypeExpr
  pub indexed : Bool

unfoldable pub event_param_exprs : List EventParam → Result (List EventParamExpr)
unfolding to_syntax_string
event_param_exprs params =
    both
      (λ (p : EventParam). to_syntax_string p.kind >>= λ kind.
        ok (record { name = p.name; kind = kind; indexed = p.indexed }))
      params

-- `log.next().expect(INTERNAL_ERR).value`
abbrev pub log_iter : Expr
log_iter = method (expect (method (ident (text "log")) (text "next"))) (text "value")

-- What the generated module of an event, and its log, are made of.
pub record EventInterface : Type 0 where
  pub name : Bytes
  pub log_fields : List (Bytes × RustType)
  pub recreate_inputs : List EventParamExpr
  pub log_init : List (Bytes × Expr)
  pub wildcard_filter_params : ℕ
  -- `T: Into<ethabi::Topic<t>>`
  pub filter_declarations : List (Bytes × RustType)
  pub filter_definitions : List (Bytes × Bytes)
  -- `topic0: name.into().map(|i| e)`
  pub filter_init : List (Bytes × Bytes × Expr)
  pub anonymous : Bool

abbrev pub zip_with {ℓ κ} : {S : Type ℓ} {T : Type κ} → List S → List T → List (S × T)
zip_with (s ∷ ss) (t ∷ ts) = (s, t) ∷ zip_with ss ts
zip_with _ _ = []

abbrev pub numbered : ℕ → List (Bytes × Expr) → List (Bytes × Bytes × Expr)
numbered index [] = []
numbered index (p ∷ ps) = (text "topic" ++ decimal index, p.0, p.1) ∷ numbered (suc index) ps

module _ (crates : Crates) where
  abbrev pub event_name : ℕ → EventParam → Bytes
  event_name index p =
      if length p.name == 0
      then (if p.indexed then text "topic" else text "param") ++ decimal index
      else crates.to_snake_case p.name

  -- `enumerate` over all inputs, of which the indexed ones may be kept alone.
  unfoldable pub event_names : Bool → ℕ → List EventParam → Result (List Bytes)
  unfolding new_ident
  event_names only_indexed index [] = ok []
  event_names only_indexed index (p ∷ ps) =
      let rest = event_names only_indexed (suc index) ps in
      if only_indexed && not p.indexed
      then rest
      else new_ident crates (event_name index p) >>= λ name. rest >>= λ names. ok (name ∷ names)

  unfoldable pub from_event : Event → Result EventInterface
  unfolding rust_type from_token to_token event_names event_param_exprs definitions
      get_template_names ethabi.Event.select
  from_event e = event_names false 0 e.inputs >>= λ names.
      event_names true 0 e.inputs >>= λ topic_names.
      let topics = select true e.inputs in
      let template_names = get_template_names 0 (length topics) in
      both (λ (p : EventParam). rust_type p.kind) e.inputs >>= λ kinds.
      both (λ (p : EventParam). from_token p.kind log_iter) e.inputs >>= λ to_log.
      both (λ (p : EventParam). rust_type p.kind) topics >>= λ topic_kinds.
      both (λ (p : EventParam). to_token (ident (text "i")) p.kind) (take 3 topics) >>= λ tokens.
      event_param_exprs e.inputs >>= λ inputs. ok (record {
        name = e.name;
        log_fields = zip_with names kinds;
        recreate_inputs = inputs;
        log_init = zip_with names to_log;
        wildcard_filter_params = length (definitions topic_names template_names);
        filter_declarations = zip_with template_names topic_kinds;
        filter_definitions = definitions topic_names template_names;
        filter_init = numbered 0 (zip_with topic_names tokens);
        anonymous = e.anonymous;
      })

-- The names of the generated module and of the struct for its log, the fields of the struct, the
-- parameters of `filter`, and `event()` as an expression of its fields.
pub record EventExpr : Type 0 where
  pub module_name : Bytes
  pub camel_name : Bytes
  pub log_names : List Bytes
  pub filter_names : List Bytes
  pub name : Bytes
  pub inputs : List EventParamExpr
  pub anonymous : Bool

-- The event is recreated under its name in upper camel case.
unfoldable pub event_expr : Crates → EventInterface → Result EventExpr
unfolding new_ident
event_expr crates e = do
  module_name ← new_ident crates (crates.to_snake_case e.name)
  camel_name ← new_ident crates (crates.to_upper_camel_case e.name)
  ok (record {
    module_name = module_name;
    camel_name = camel_name;
    log_names = map (λ f. f.0) e.log_fields;
    filter_names = map (λ d. d.0) e.filter_definitions;
    name = crates.to_upper_camel_case e.name;
    inputs = e.recreate_inputs;
    anonymous = e.anonymous;
  })

-- What is generated for a contract.
pub record ContractInterface : Type 0 where
  pub constructor_ : Option ConstructorInterface
  pub functions : List FunctionInterface
  pub events : List EventInterface

-- `constructor.as_ref().map(Into::into)`
unfoldable pub constructor_interface :
    Crates → Option Constructor → Result (Option ConstructorInterface)
unfolding from_constructor
constructor_interface crates (some k) = from_constructor crates k >>= λ i. ok (some i)
constructor_interface crates none = ok none

unfoldable pub from_contract : Crates → Contract → Result ContractInterface
unfolding constructor_interface from_function from_event all_functions all_events constructor_of
from_contract crates c = do
  constructed ← constructor_interface crates (constructor_of c)
  functions ← both (from_function crates) (all_functions c)
  events ← both (from_event crates) (all_events c)
  ok (record { constructor_ = constructed; functions = functions; events = events })
