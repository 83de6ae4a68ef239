-- ===== src/Tests/Contracts.antt =====
-- Contracts at sample values.
use ethabi.Tokenizer.{starts_with}
use ethabi.Contract.Sanitized.{sanitize_name_lem}
use ethabi.Base.{
  All, ◌==◌, ◌++◌, Bytes, ◌⊎◌, false, ℕ, ◌≡◌, refl, true, none, List, [], ◌∷◌, Result, ok, text,
}
use ethabi.Function.{Function}
use ethabi.Param.{StateMutability}
use ethabi.Contract.{
  Operation, function_, event_, error_, fallback_, visit_seq, serialize, function,
  functions_by_name, event, events_by_name, error, errors_by_name, sanitize_name,
}
use ethabi.Contract.Lookups.{
  first_of, all_of, entries_named, as_function, as_event, as_error, function-visit_seq,
  event-visit_seq,
}
use ethabi.Contract.Written.{IsContract, visit_seq-serialize}
use ethabi.Tests.Calls.{call_it, raise_it}
use ethabi.Tests.Logs.{sent}

abbrev other_call : Function
other_call = record {
  name = text "a";
  inputs = [];
  outputs = [];
  constant = none;
  state_mutability = StateMutability.view;
}

abbrev entries : List Operation
entries =
    function_ call_it
    ∷ event_ sent
    ∷ function_ other_call
    ∷ error_ raise_it
    ∷ fallback_
    ∷ function_ call_it
    ∷ []

-- Functions are written in the order of their names.
sample_serialized :
    serialize (visit_seq entries)
    ≡ function_ other_call
      ∷ function_ call_it
      ∷ function_ call_it
      ∷ event_ sent
      ∷ error_ raise_it
      ∷ fallback_
      ∷ []
unfolding serialize visit_seq ethabi.Base.flatten ethabi.Base.text_eq ethabi.Base.before
sample_serialized = refl

sample_sanitized : sanitize_name (text "f(uint256)") ≡ text "f"
unfolding sanitize_name
sample_sanitized = refl

function-visit_seq_example :
    (function (visit_seq entries) (text "f")
      ≡ first_of (text "f") (entries_named as_function (λ f. f.name) (text "f") entries))
    × (functions_by_name (visit_seq entries) (text "f")
        ≡ all_of (text "f") (entries_named as_function (λ f. f.name) (text "f") entries))
function-visit_seq_example = function-visit_seq entries (text "f")

event-visit_seq_example :
    (event (visit_seq entries) (text "E")
      ≡ first_of (text "E") (entries_named as_event (λ e. e.name) (text "E") entries))
    × (events_by_name (visit_seq entries) (text "E")
        ≡ all_of (text "E") (entries_named as_event (λ e. e.name) (text "E") entries))
    × (error (visit_seq entries) (text "E")
        ≡ first_of (text "E") (entries_named as_error (λ e. e.name) (text "E") entries))
    × (errors_by_name (visit_seq entries) (text "E")
        ≡ all_of (text "E") (entries_named as_error (λ e. e.name) (text "E") entries))
event-visit_seq_example = event-visit_seq entries (text "E")

visit_seq-serialize_example :
    IsContract (visit_seq entries) × (visit_seq (serialize (visit_seq entries)) ≡ visit_seq entries)
visit_seq-serialize_example = visit_seq-serialize entries

sanitize_name_lem_example :
    All (λ b. (b == b'(') ≡ false) (sanitize_name (text "f(uint256)"))
    × ((rest : Bytes) × (text "f(uint256)" ≡ sanitize_name (text "f(uint256)") ++ rest)
        × ((rest ≡ []) ⊎ (starts_with rest b'(' ≡ true)))
sanitize_name_lem_example = sanitize_name_lem (text "f(uint256)")
