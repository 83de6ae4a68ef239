-- ===== src/Tests/Params.antt =====
-- Parameters in JSON.
use ethabi.Base.{
  ◌≡◌, refl, true, false, some, none, [], ◌∷◌, ok, err, serde_json, duplicate_field, missing_field,
  arith, text, ◌≤◌,
}
use ethabi.ParamType.{ParamType, ParamTypes}
use ethabi.ParamType.Reader.{read}
use ethabi.ParamType.Writer.{write_for_abi}
use ethabi.Json.{Json, Entries, string, array, object, nil, cons, end, entry}
use ethabi.Param.{Param, EventParam}
use ethabi.Param.Tuples.{TupleParam, tuple_param, tuple_param_json}
use ethabi.Param.Visitors.{param_value, param_json, event_param_value, event_param_json}
use ethabi.Param.Written.{tuple_param-tuple_param_json, param_value-param_json}
use ethabi.Param.WrittenEvents.{event_param_value-event_param_json}
use ethabi.Param.Once.{occurrences, param_value_once}

-- (uint256, (bool)[2])[]
abbrev nested_kind : ParamType
nested_kind = ParamType.array (
    ParamType.tuple (
      ParamTypes.cons (ParamType.uint 256) (
        ParamTypes.cons
          (ParamType.fixed_array (ParamType.tuple (ParamTypes.cons ParamType.bool ParamTypes.nil))
            2)
          ParamTypes.nil)))

abbrev point : Param
point = record { name = text "p"; kind = nested_kind; internal_type = some (text "struct P[]") }

point_written :
    param_json (record { name = text "p"; kind = nested_kind; internal_type = none })
    ≡ object (
        entry (text "name") (string (text "p")) (
          entry (text "type") (string (text "tuple[]")) (
            entry
              (text "components")
              (array (
                cons (object (entry (text "type") (string (text "uint256")) end)) (
                  cons
                    (object (
                      entry (text "type") (string (text "tuple[2]")) (
                        entry
                          (text "components")
                          (array
                            (cons (object (entry (text "type") (string (text "bool")) end)) nil))
                          end)))
                    nil)))
              end)))
unfolding param_json write_for_abi ethabi.Base.decimal ethabi.Base.digits
point_written = refl

no_components :
    param_value
      (object (entry (text "name") (string []) (entry (text "type") (string (text "tuple")) end)))
    ≡ err (serde_json (missing_field (text "components")))
unfolding param_value read ethabi.Base.text_eq
no_components = refl

second_type :
    param_value (
      object (
        entry
          (text "type")
          (string (text "bool"))
          (entry (text "type") (string (text "bool")) end)))
    ≡ err (serde_json (duplicate_field (text "kind")))
unfolding param_value read ethabi.Base.text_eq
second_type = refl

param_value-param_json_example : param_value (param_json point) ≡ ok point
param_value-param_json_example =
    param_value-param_json point (omega arith, ((omega arith, (tt, tt)), tt))

abbrev topic : EventParam
topic = record { name = text "who"; kind = nested_kind; indexed = true }

event_param_value-event_param_json_example : event_param_value (event_param_json topic) ≡ ok topic
event_param_value-event_param_json_example =
    event_param_value-event_param_json topic (omega arith, ((omega arith, (tt, tt)), tt))

abbrev field : TupleParam
field = record { name = some (text "f"); kind = nested_kind; internal_type = none }

tuple_param-tuple_param_json_example : tuple_param (tuple_param_json field) ≡ ok field
tuple_param-tuple_param_json_example =
    tuple_param-tuple_param_json field (omega arith, ((omega arith, (tt, tt)), tt))

-- A key that the visitor does not know, between the two that it needs.
abbrev flag_entries : Entries
flag_entries =
    entry (text "type") (string (text "bool"))
      (entry (text "note") Json.other (entry (text "name") (string (text "b")) end))

abbrev flag : Param
flag = record { name = text "b"; kind = ParamType.bool; internal_type = none }

flag_read : param_value (object flag_entries) ≡ ok flag
unfolding param_value read ethabi.Base.text_eq
flag_read = refl

param_value_once_example :
    (occurrences (text "name") flag_entries ≡ 1)
    × (occurrences (text "type") flag_entries ≡ 1)
    × (occurrences (text "internalType") flag_entries ≤ 1)
    × (occurrences (text "components") flag_entries ≤ 1)
param_value_once_example = param_value_once flag_entries flag flag_read
