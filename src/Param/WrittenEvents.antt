-- ===== src/Param/WrittenEvents.antt =====
-- What is written of an event's parameter (ethabi/src/event_param.rs) is read back.
use ethabi.Base.{
  Bool, false, Option, some, none, List, Bytes, text, Result, ok, ◌>>=◌, map_ok, ◌≡◌, refl, ap, ◌∙◌,
}
use ethabi.ParamType.{ParamType}
use ethabi.ParamType.Outline.{outline, IsSized}
use ethabi.ParamType.Writer.{write_for_abi}
use ethabi.Json.{Json, Entries}
use ethabi.Param.{EventParam}
use ethabi.Param.Components.{
  set-outline, kind-written, loop_step, loop-components, nested, bare_components,
}
use ethabi.Param.Tuples.{
  TupleParam, kind_value, tuple_params, components_entry, components_json, type_entry,
}
use ethabi.Param.Visitors.{
  EventParamScan, event_param_entry, event_param_entries, event_param_finish, event_param_value,
  event_param_json,
}

event_param_entries-end : (s : EventParamScan) → event_param_entries s Entries.end ≡ ok s
unfolding event_param_entries
event_param_entries-end s = refl

event_param_entries-entry :
    (s : EventParamScan) (key : Bytes) (value : Json) (rest : Entries)
    → event_param_entries s (Entries.entry key value rest)
      ≡ (event_param_entry s key value >>= λ s'. event_param_entries s' rest)
unfolding event_param_entries
event_param_entries-entry s key value rest = refl

module _ (name : Bytes) where
  abbrev known : Option ParamType → Option Bool → Option (List TupleParam) → EventParamScan
  known kind indexed components = record {
    name = some name;
    kind = kind;
    indexed = indexed;
    components = components;
  }

  event_param_entry-type :
      (value : Json) (p : ParamType)
      → kind_value value ≡ ok p
      → event_param_entry (known none none none) (text "type") value ≡ ok (known (some p) none none)
  unfolding event_param_entry ethabi.Base.text_eq
  event_param_entry-type value p h = ap (λ r. map_ok some r >>= λ v. ok (known v none none)) h

  event_param_entry-components :
      (kind : Option ParamType) (indexed : Option Bool) (value : Json) (ts : List TupleParam)
      → tuple_params value ≡ ok ts
      → event_param_entry (known kind indexed none) (text "components") value
        ≡ ok (known kind indexed (some ts))
  unfolding event_param_entry ethabi.Base.text_eq
  event_param_entry-components kind indexed value ts h =
      ap (λ r. map_ok some r >>= λ v. ok (known kind indexed v)) h

  event_param_entry-indexed :
      (kind : Option ParamType) (b : Bool)
      → event_param_entry (known kind none none) (text "indexed") (Json.bool b)
        ≡ ok (known kind (some b) none)
  unfolding event_param_entry ethabi.Base.text_eq
  event_param_entry-indexed kind b = refl

  event_param_entries-kind :
      (p : ParamType) (b : Bool)
      → IsSized p
      → event_param_entries (known none none none) (
          type_entry p
            (Entries.entry (text "indexed") (Json.bool b) (components_entry (components_json p))))
        ≡ ok (known (some (outline p)) (some b) (bare_components p))
  event_param_entries-kind p b h =
      let written = Json.string (write_for_abi p false) in
      let cs = components_entry (components_json p) in
      let kind = some (outline p) in
      loop_step event_param_entries event_param_entry event_param_entries-end
        event_param_entries-entry (known none none none) (known kind none none) (text "type")
        written (Entries.entry (text "indexed") (Json.bool b) cs)
        (event_param_entry-type written (outline p) (kind-written p h))
      ∙ loop_step event_param_entries event_param_entry event_param_entries-end
          event_param_entries-entry (known kind none none) (known kind (some b) none)
          (text "indexed") (Json.bool b) cs (event_param_entry-indexed kind b)
      ∙ loop-components event_param_entries event_param_entry event_param_entries-end
          event_param_entries-entry (λ c. known kind (some b) c) p (nested p h)
          (event_param_entry-components kind (some b))

event_param_name :
    (name : Bytes) (es : Entries)
    → event_param_value (Json.object (Entries.entry (text "name") (Json.string name) es))
      ≡ (event_param_entries (known name none none none) es >>= event_param_finish)
unfolding event_param_value event_param_entry ethabi.Base.text_eq
event_param_name name es = refl

event_param_finish-bare :
    (p : EventParam)
    → event_param_finish
        (known p.name (some (outline p.kind)) (some p.indexed) (bare_components p.kind))
      ≡ ok p
unfolding event_param_finish
event_param_finish-bare p =
    ap (λ r. r >>= λ k. ok (record { name = p.name; kind = k; indexed = p.indexed }))
      (set-outline p.kind)

-- An event's parameter whose sizes are below 2 ^ 64 is read back from the JSON that is written of it,
-- with its flag and the components of its type at any depth.
pub event_param_value-event_param_json :
    (p : EventParam) → IsSized p.kind → event_param_value (event_param_json p) ≡ ok p
unfolding event_param_json
event_param_value-event_param_json p h =
    let es = components_entry (components_json p.kind) in
    event_param_name p.name
      (type_entry p.kind (Entries.entry (text "indexed") (Json.bool p.indexed) es))
    ∙ ap (λ r. r >>= event_param_finish) (event_param_entries-kind p.name p.kind p.indexed h)
    ∙ event_param_finish-bare p
