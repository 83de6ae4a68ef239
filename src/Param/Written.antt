-- ===== src/Param/Written.antt =====
-- What is written of a parameter (`Serialize`, ethabi/src/param.rs, ethabi/src/event_param.rs and
-- ethabi/src/tuple_param.rs) is read back.
use ethabi.Base.{
  Bool, false, Option, some, none, List, Bytes, text, Result, ok, ◌>>=◌, map_ok, ◌≡◌, refl, ap, ◌∙◌,
}
use ethabi.ParamType.{ParamType}
use ethabi.ParamType.Outline.{outline, IsSized}
use ethabi.ParamType.Writer.{write_for_abi}
use ethabi.Json.{Json, Entries}
use ethabi.Param.{Param}
use ethabi.Param.Components.{
  set-outline, kind-written, loop_step, loop-components, nested, bare_components, seen,
  tuple_entries-kind, tuple_param-entries,
}
use ethabi.Param.Tuples.{
  TupleParam, kind_value, tuple_params, tuple_param, tuple_entries, tuple_finish, tuple_entry,
  optional, components_entry, components_json, type_entry, tuple_param_json,
}
use ethabi.Param.Visitors.{
  ParamScan, param_entry, param_entries, param_finish, param_value, param_json,
}

-- The names before the type are read first.
tuple_names :
    (internal name : Option Bytes) (es : Entries)
    → tuple_entries
        (seen none none none none)
        (optional internal (text "internalType") (optional name (text "name") es))
      ≡ tuple_entries (seen name internal none none) es
unfolding tuple_entries tuple_entry ethabi.Base.text_eq
tuple_names none none es = refl
tuple_names none (some n) es = refl
tuple_names (some i) none es = refl
tuple_names (some i) (some n) es = refl

-- A tuple's component whose sizes are below 2 ^ 64 is read back from the JSON that is written of it,
-- with its name, its type and the components of its type.
pub tuple_param-tuple_param_json :
    (t : TupleParam) → IsSized t.kind → tuple_param (tuple_param_json t) ≡ ok t
unfolding tuple_param_json
tuple_param-tuple_param_json t h =
    let es = type_entry t.kind (components_entry (components_json t.kind)) in
    tuple_param-entries
      (optional t.internal_type (text "internalType") (optional t.name (text "name") es))
    ∙ ap (λ r. r >>= tuple_finish) (tuple_names t.internal_type t.name es)
    ∙ tuple_entries-kind t.name t.internal_type t.kind h (nested t.kind h)

param_entries-end : (s : ParamScan) → param_entries s Entries.end ≡ ok s
unfolding param_entries
param_entries-end s = refl

param_entries-entry :
    (s : ParamScan) (key : Bytes) (value : Json) (rest : Entries)
    → param_entries s (Entries.entry key value rest)
      ≡ (param_entry s key value >>= λ s'. param_entries s' rest)
unfolding param_entries
param_entries-entry s key value rest = refl

module _ (name internal_type : Option Bytes) where
  abbrev met : Option ParamType → Option (List TupleParam) → ParamScan
  met kind components = record {
    name = name;
    kind = kind;
    components = components;
    internal_type = internal_type;
  }

  param_entry-type :
      (value : Json) (p : ParamType)
      → kind_value value ≡ ok p
      → param_entry (met none none) (text "type") value ≡ ok (met (some p) none)
  unfolding param_entry ethabi.Base.text_eq
  param_entry-type value p h = ap (λ r. map_ok some r >>= λ v. ok (met v none)) h

  param_entry-components :
      (kind : Option ParamType) (value : Json) (ts : List TupleParam)
      → tuple_params value ≡ ok ts
      → param_entry (met kind none) (text "components") value ≡ ok (met kind (some ts))
  unfolding param_entry ethabi.Base.text_eq
  param_entry-components kind value ts h = ap (λ r. map_ok some r >>= λ v. ok (met kind v)) h

  param_entries-kind :
      (p : ParamType)
      → IsSized p
      → param_entries (met none none) (type_entry p (components_entry (components_json p)))
        ≡ ok (met (some (outline p)) (bare_components p))
  param_entries-kind p h =
      let written = Json.string (write_for_abi p false) in
      loop_step param_entries param_entry param_entries-end param_entries-entry (met none none)
        (met (some (outline p)) none) (text "type") written (components_entry (components_json p))
        (param_entry-type written (outline p) (kind-written p h))
      ∙ loop-components param_entries param_entry param_entries-end param_entries-entry
          (λ c. met (some (outline p)) c) p (nested p h) (param_entry-components (some (outline p)))

param_names :
    (internal : Option Bytes) (name : Bytes) (es : Entries)
    → param_value (
        Json.object (
          optional internal
            (text "internalType")
            (Entries.entry (text "name") (Json.string name) es)))
      ≡ (param_entries (met (some name) internal none none) es >>= param_finish)
unfolding param_value param_entry ethabi.Base.text_eq
param_names none name es = refl
param_names (some i) name es = refl

param_finish-bare :
    (p : Param)
    → param_finish
        (met (some p.name) p.internal_type (some (outline p.kind)) (bare_components p.kind))
      ≡ ok p
unfolding param_finish
param_finish-bare p =
    ap (λ r. r >>= λ k. ok (record { name = p.name; kind = k; internal_type = p.internal_type }))
      (set-outline p.kind)

-- A function's parameter whose sizes are below 2 ^ 64 is read back from the JSON that is written of
-- it, with the components of its type at any depth.
pub param_value-param_json : (p : Param) → IsSized p.kind → param_value (param_json p) ≡ ok p
unfolding param_json
param_value-param_json p h =
    param_names p.internal_type p.name
      (type_entry p.kind (components_entry (components_json p.kind)))
    ∙ ap (λ r. r >>= param_finish) (param_entries-kind (some p.name) p.internal_type p.kind h)
    ∙ param_finish-bare p
