-- ===== src/Param/Visitors.antt =====
-- ethabi/src/param.rs and ethabi/src/event_param.rs: the parameters of functions and of events, read
-- from JSON and written.
use ethabi.Base.{
  Bool, false, if◌then◌else◌, Option, some, none, List, Bytes, text, text_eq, Result, ok, err,
  serde_json, missing_field, invalid_type, ok_or, ◌>>=◌,
}
use ethabi.ParamType.{ParamType}
use ethabi.Json.{Json, Entries, string_value, bool_value}
use ethabi.Param.{Param, EventParam}
use ethabi.Param.Tuples.{
  TupleParam, kind_value, fresh, set_tuple_components, tuple_params, optional, components_json,
  components_entry, type_entry,
}

-- The variables of the loop in the `visit_map` of `Param`.
pub record ParamScan : Type 0 where
  pub name : Option Bytes
  pub kind : Option ParamType
  pub components : Option (List TupleParam)
  pub internal_type : Option Bytes

-- One entry of the map. A second type is reported under the name of the field, `kind`.
unfoldable pub param_entry : ParamScan → Bytes → Json → Result ParamScan
unfolding kind_value tuple_params
param_entry s key value =
    if text_eq key (text "name")
    then (fresh (text "name") s.name (string_value value) >>= λ v. ok (record s { name = v }))
    else if text_eq key (text "type")
    then (fresh (text "kind") s.kind (kind_value value) >>= λ v. ok (record s { kind = v }))
    else if text_eq key (text "internalType")
    then (fresh (text "internalType") s.internal_type (string_value value) >>= λ v.
        ok (record s { internal_type = v }))
    else if text_eq key (text "components")
    then (fresh (text "components") s.components (tuple_params value) >>= λ v.
        ok (record s { components = v }))
    else ok s

unfoldable pub param_entries : ParamScan → Entries → Result ParamScan
unfolding param_entry
param_entries s Entries.end = ok s
param_entries s (Entries.entry key value rest) =
    param_entry s key value >>= λ s'. param_entries s' rest

unfoldable pub param_finish : ParamScan → Result Param
unfolding set_tuple_components
param_finish s = do
  name ← ok_or s.name (serde_json (missing_field (text "name")))
  kind ← ok_or s.kind (serde_json (missing_field (text "kind")))
  kind ← set_tuple_components kind s.components
  ok (record { name = name; kind = kind; internal_type = s.internal_type })

unfoldable pub param_value : Json → Result Param
unfolding param_entries param_finish
param_value (Json.object entries) =
    param_entries (record { name = none; kind = none; components = none; internal_type = none })
      entries
    >>= param_finish
param_value _ = err (serde_json invalid_type)

unfoldable pub param_json : Param → Json
unfolding components_json
param_json p = Json.object (
    optional p.internal_type (text "internalType") (
      Entries.entry (text "name") (Json.string p.name)
        (type_entry p.kind (components_entry (components_json p.kind)))))

-- The variables of the loop in the `visit_map` of `EventParam`.
pub record EventParamScan : Type 0 where
  pub name : Option Bytes
  pub kind : Option ParamType
  pub indexed : Option Bool
  pub components : Option (List TupleParam)

unfoldable pub event_param_entry : EventParamScan → Bytes → Json → Result EventParamScan
unfolding kind_value tuple_params
event_param_entry s key value =
    if text_eq key (text "name")
    then (fresh (text "name") s.name (string_value value) >>= λ v. ok (record s { name = v }))
    else if text_eq key (text "type")
    then (fresh (text "kind") s.kind (kind_value value) >>= λ v. ok (record s { kind = v }))
    else if text_eq key (text "components")
    then (fresh (text "components") s.components (tuple_params value) >>= λ v.
        ok (record s { components = v }))
    else if text_eq key (text "indexed")
    then (fresh (text "indexed") s.indexed (bool_value value) >>= λ v.
        ok (record s { indexed = v }))
    else ok s

unfoldable pub event_param_entries : EventParamScan → Entries → Result EventParamScan
unfolding event_param_entry
event_param_entries s Entries.end = ok s
event_param_entries s (Entries.entry key value rest) =
    event_param_entry s key value >>= λ s'. event_param_entries s' rest

-- A flag that is not given is false.
unfoldable pub event_param_finish : EventParamScan → Result EventParam
unfolding set_tuple_components
event_param_finish s = do
  name ← ok_or s.name (serde_json (missing_field (text "name")))
  kind ← ok_or s.kind (serde_json (missing_field (text "kind")))
  kind ← set_tuple_components kind s.components
  ok (record { name = name; kind = kind; indexed = elim s.indexed [ some b ↦ b | none ↦ false ] })

unfoldable pub event_param_value : Json → Result EventParam
unfolding event_param_entries event_param_finish
event_param_value (Json.object entries) =
    event_param_entries (record { name = none; kind = none; indexed = none; components = none })
      entries
    >>= event_param_finish
event_param_value _ = err (serde_json invalid_type)

unfoldable pub event_param_json : EventParam → Json
unfolding components_json
event_param_json p = Json.object (
    Entries.entry (text "name") (Json.string p.name) (
      type_entry p.kind (
        Entries.entry (text "indexed") (Json.bool p.indexed)
          (components_entry (components_json p.kind)))))
