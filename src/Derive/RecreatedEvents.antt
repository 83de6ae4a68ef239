-- ===== src/Derive/RecreatedEvents.antt =====
-- The events that the generated code recreates (derive/src/event.rs), beside those of the contract.
use ethabi.Base.{
  ℕ, zero, suc, true, false, not, ◌||◌, if◌then◌else◌, Bool-cases, inl, inr, List, [], ◌∷◌, length,
  take, All, Result, ok, ◌>>=◌, text, ◌≡◌, refl, ap, ◌∙◌,
}
use ethabi.Externs.{Externs}
use ethabi.Param.{EventParam}
use ethabi.Event
use ethabi.Event.{Event, event_kinds, select}
use ethabi.Signature.{long_signature}
use ethabi.Derive.{ident, rust_type, to_token, from_token}
use ethabi.Derive.Run.{run_type, refused}
use ethabi.Derive.Keywords.{is_keyword, are_distinct, has_name}
use ethabi.Derive.Values.{IsReadable, readable_emitted}
use ethabi.Derive.Idents.{
  AreIdents, IsModuleName, new_ident_ok, event_texts, event_names-AreIdents, indexed_texts,
  map-zip_with, definitions-select,
}
use ethabi.Derive.Tokens.{IsEmitted, to_token-IsEmitted}
use ethabi.Derive.Emitted.{
  both_ok, run_type-to_syntax_string, rust_type-IsEmitted, from_token-IsEmitted,
}
use ethabi.Derive.Parts.{Crates, definitions, get_template_names}
use ethabi.Derive.EventParts.{
  EventParamExpr, event_param_exprs, EventInterface, from_event, zip_with, numbered, log_iter,
  EventExpr, event_expr,
}

-- Running the expressions of the fields.
abbrev pub run_event_params : List EventParamExpr → Result (List EventParam)
run_event_params [] = ok []
run_event_params (e ∷ es) =
    let rest = run_event_params es in
    run_type e.kind >>= λ kind.
    rest >>= λ ps. ok (record { name = e.name; kind = kind; indexed = e.indexed } ∷ ps)

-- What `event()` returns, in a module and with a struct whose names Rust accepts. The parameters of
-- `filter` are fields of the struct, and `let e = event()` would call one that is named event.
abbrev pub run_event : EventExpr → Result Event
run_event e =
    if is_keyword e.module_name
      || is_keyword e.camel_name
      || not (are_distinct is_keyword e.log_names)
      || has_name e.filter_names (text "event")
    then refused
    else run_event_params e.inputs >>= λ inputs.
        ok (record { name = e.name; inputs = inputs; anonymous = e.anonymous })

-- The names of the event and of its parameters make identifiers that Rust accepts.
abbrev pub IsNamedEvent : Crates → Event → Type 0
IsNamedEvent crates e =
    AreIdents crates (event_texts crates false 0 e.inputs)
    × (are_distinct is_keyword (event_texts crates false 0 e.inputs) ≡ true)
    × IsModuleName crates e.name
    × (crates.is_ident (crates.to_upper_camel_case e.name) ≡ true)
    × (is_keyword (crates.to_upper_camel_case e.name) ≡ false)
    × (has_name (event_texts crates true 0 e.inputs) (text "event") ≡ false)

abbrev pub AreEmittedEvents : List EventParam → Type 0
AreEmittedEvents ps = All (λ (p : EventParam). IsEmitted p.kind) ps

pub run_event_params-event_param_exprs :
    (ps : List EventParam)
    → AreEmittedEvents ps
    → (es : List EventParamExpr) × (event_param_exprs ps ≡ ok es) × (run_event_params es ≡ ok ps)
unfolding event_param_exprs
run_event_params-event_param_exprs [] h = ([], refl, refl)
run_event_params-event_param_exprs (p ∷ ps) h =
    let kind = run_type-to_syntax_string p.kind h.0 in
    let rest = run_event_params-event_param_exprs ps h.1 in
    let first : EventParamExpr = record { name = p.name; kind = kind.0; indexed = p.indexed } in
    (
      first ∷ rest.0,
      ap
            (λ r. (r >>= λ k. ok (record { name = p.name; kind = k; indexed = p.indexed })) >>= λ t.
              event_param_exprs ps >>= λ ts. ok (t ∷ ts))
            kind.1
          ∙ ap (λ r. r >>= λ ts. ok (first ∷ ts)) rest.1,
      ap
            (λ r. r >>= λ k. run_event_params rest.0 >>= λ ps.
              ok (record { name = p.name; kind = k; indexed = p.indexed } ∷ ps))
            kind.2
          ∙ ap (λ r. r >>= λ ps. ok (p ∷ ps)) rest.2,
    )

pub take_emitted :
    (n : ℕ) (ps : List EventParam) → AreEmittedEvents ps → AreEmittedEvents (take n ps)
take_emitted zero ps h = tt
take_emitted (suc n) [] h = tt
take_emitted (suc n) (p ∷ ps) h = (h.0, take_emitted n ps h.1)

pub select_emitted :
    (ps : List EventParam) → AreEmittedEvents ps → AreEmittedEvents (select true ps)
unfolding select
select_emitted [] h = tt
select_emitted (p ∷ ps) h = elim (Bool-cases p.indexed) [
  | inl e ↦ rw e ((h.0, select_emitted ps h.1))
  | inr e ↦ rw e (select_emitted ps h.1)
]

-- Without tuples and arrays of fixed size.
abbrev pub AreReadableEvents : List EventParam → Type 0
AreReadableEvents ps = All (λ (p : EventParam). IsReadable p.kind) ps

readable_inputs : (ps : List EventParam) → AreReadableEvents ps → AreEmittedEvents ps
readable_inputs [] h = tt
readable_inputs (p ∷ ps) h = (readable_emitted p.kind h.0, readable_inputs ps h.1)

-- For an event without tuples and arrays of fixed size among its types, whose name makes identifiers
-- that are no keywords in snake case and in upper camel case, and whose parameters' names make
-- different identifiers that are no keywords, those of indexed ones not event: the generator succeeds, and the generated code works with
-- an event of the same parameters, whose signature is that of the event's name in upper camel case.
pub from_event-recreated :
    (x : Externs) (crates : Crates) (e : Event)
    → AreReadableEvents e.inputs
    → IsNamedEvent crates e
    → (g : EventInterface) × (h : Event) × (from_event crates e ≡ ok g)
      × ((event_expr crates g >>= run_event) ≡ ok h)
      × (h.inputs ≡ e.inputs)
      × (Event.signature x h
          ≡ long_signature x (crates.to_upper_camel_case e.name) (Event.param_types e))
unfolding from_event event_expr Event.signature
from_event-recreated x crates e hr named =
    let he = readable_inputs e.inputs hr in
    let topics = select true e.inputs in
    let names = event_texts crates false 0 e.inputs in
    let topic_names = event_texts crates true 0 e.inputs in
    let made = event_names-AreIdents crates false 0 e.inputs named.0 in
    let made_topics =
      event_names-AreIdents crates true 0 e.inputs (indexed_texts crates 0 e.inputs named.0) in
    let template_names = get_template_names 0 (length topics) in
    let typed =
      both_ok (λ (p : EventParam). IsEmitted p.kind) (λ (p : EventParam). rust_type p.kind)
        (λ p k. rust_type-IsEmitted p.kind k) in
    let ht = select_emitted e.inputs he in
    let kinds = typed e.inputs he in
    let topic_kinds = typed topics ht in
    let to_log =
      both_ok (λ (p : EventParam). IsEmitted p.kind)
        (λ (p : EventParam). from_token p.kind log_iter)
        (λ p k. from_token-IsEmitted p.kind log_iter k) e.inputs he in
    let tokens =
      both_ok (λ (p : EventParam). IsEmitted p.kind)
        (λ (p : EventParam). to_token (ident (text "i")) p.kind)
        (λ p k. to_token-IsEmitted p.kind (ident (text "i")) k) (take 3 topics)
        (take_emitted 3 topics ht) in
    let inputs = run_event_params-event_param_exprs e.inputs he in
    let g : EventInterface = record {
      name = e.name;
      log_fields = zip_with names kinds.0;
      recreate_inputs = inputs.0;
      log_init = zip_with names to_log.0;
      wildcard_filter_params = length (definitions topic_names template_names);
      filter_declarations = zip_with template_names topic_kinds.0;
      filter_definitions = definitions topic_names template_names;
      filter_init = numbered 0 (zip_with topic_names tokens.0);
      anonymous = e.anonymous;
    } in
    let h : Event = record {
      name = crates.to_upper_camel_case e.name;
      inputs = e.inputs;
      anonymous = e.anonymous;
    } in
    let fields =
      map-zip_with crates (λ (p : EventParam). rust_type p.kind) 0 e.inputs kinds.0 kinds.1 in
    (
      g,
      h,
      (rw (made, made_topics, kinds.1, to_log.1, topic_kinds.1, tokens.1, inputs.1) refl),
      (rw
          (
            new_ident_ok crates (crates.to_snake_case e.name) named.2.0,
            new_ident_ok crates (crates.to_upper_camel_case e.name) named.3,
            fields,
            named.1,
            named.2.1,
            named.4,
            definitions-select crates 0 0 e.inputs,
            named.5,
            inputs.2,
          )
          refl),
      refl,
      refl,
    )
