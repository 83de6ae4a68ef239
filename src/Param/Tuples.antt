-- ===== src/Param/Tuples.antt =====
-- ethabi/src/tuple_param.rs, ethabi/src/param_type/deserialize.rs, and the helpers at the end of
-- ethabi/src/param.rs: the components of tuples in JSON.
use ethabi.Base.{
  false, if◌then◌else◌, Option, some, none, List, [], ◌∷◌, Bytes, text, text_eq, Result, ok, err,
  panic, serde_json, duplicate_field, missing_field, invalid_type, custom, ok_or, map_ok, ◌>>=◌,
}
use ethabi.ParamType.{ParamType, ParamTypes, append}
use ethabi.ParamType.Reader.{read}
use ethabi.ParamType.Writer.{write_for_abi}
use ethabi.Json.{Json, Jsons, Entries, string_value}

pub record TupleParam : Type 0 where
  pub name : Option Bytes
  pub kind : ParamType
  pub internal_type : Option Bytes

-- The visitor of `ParamType`: any error of the reader becomes a custom one.
unfoldable pub visit_str : Bytes → Result ParamType
unfolding read
visit_str value = elim (read value) [
  | ok p ↦ ok p
  | err e ↦ err (serde_json custom)
  | panic ↦ panic
]

-- `map.next_value::<ParamType>()`
unfoldable pub kind_value : Json → Result ParamType
unfolding visit_str
kind_value (Json.string s) = visit_str s
kind_value _ = err (serde_json invalid_type)

unfoldable pub inner_tuple : ParamType → Option ParamTypes
inner_tuple (ParamType.array p) = inner_tuple p
inner_tuple (ParamType.fixed_array p n) = inner_tuple p
inner_tuple (ParamType.tuple ps) = some ps
inner_tuple _ = none

-- `inner_tuple_mut(kind).extend(kinds)`
unfoldable pub extend_inner : ParamType → ParamTypes → ParamType
extend_inner (ParamType.array p) kinds = ParamType.array (extend_inner p kinds)
extend_inner (ParamType.fixed_array p n) kinds = ParamType.fixed_array (extend_inner p kinds) n
extend_inner (ParamType.tuple ps) kinds = ParamType.tuple (append ps kinds)
extend_inner p kinds = p

-- `tuple_params.into_iter().map(|param| param.kind)`
unfoldable pub tuple_kinds : List TupleParam → ParamTypes
tuple_kinds [] = ParamTypes.nil
tuple_kinds (t ∷ ts) = ParamTypes.cons t.kind (tuple_kinds ts)

unfoldable pub set_tuple_components : ParamType → Option (List TupleParam) → Result ParamType
unfolding inner_tuple extend_inner tuple_kinds
set_tuple_components kind components = elim (inner_tuple kind) [
  | some _ ↦ ok_or components (serde_json (missing_field (text "components"))) >>= λ tuple_params.
      ok (extend_inner kind (tuple_kinds tuple_params))
  | none ↦ ok kind
]

-- A field that was not there before.
abbrev pub fresh {ℓ} : {T : Type ℓ} → Bytes → Option T → Result T → Result (Option T)
fresh field (some _) value = err (serde_json (duplicate_field field))
fresh field none value = map_ok some value

-- The variables of the loop in `visit_map`.
pub record TupleScan : Type 0 where
  pub name : Option Bytes
  pub kind : Option ParamType
  pub components : Option (List TupleParam)
  pub internal_type : Option Bytes

-- One entry of the map. `nested` is the value read as a list of tuple parameters.
unfoldable pub tuple_entry : TupleScan → Bytes → Json → Result (List TupleParam) → Result TupleScan
unfolding kind_value
tuple_entry s key value nested =
    if text_eq key (text "name")
    then (fresh (text "name") s.name (string_value value) >>= λ v. ok (record s { name = v }))
    else if text_eq key (text "type")
    then (fresh (text "type") s.kind (kind_value value) >>= λ v. ok (record s { kind = v }))
    else if text_eq key (text "internalType")
    then (fresh (text "internalType") s.internal_type (string_value value) >>= λ v.
        ok (record s { internal_type = v }))
    else if text_eq key (text "components")
    then (fresh (text "components") s.components nested >>= λ v. ok (record s { components = v }))
    else ok s

-- What the visitor returns after the loop.
unfoldable pub tuple_finish : TupleScan → Result TupleParam
unfolding set_tuple_components
tuple_finish s = do
  kind ← ok_or s.kind (serde_json (missing_field (text "kind")))
  kind ← set_tuple_components kind s.components
  ok (record { name = s.name; kind = kind; internal_type = s.internal_type })

unfoldable mutual
  unfolding tuple_entry tuple_finish

  -- `Vec<TupleParam>`
  pub tuple_params : Json → Result (List TupleParam)
  tuple_params (Json.array items) = each_tuple_param items
  tuple_params _ = err (serde_json invalid_type)

  pub each_tuple_param : Jsons → Result (List TupleParam)
  each_tuple_param Jsons.nil = ok []
  each_tuple_param (Jsons.cons item items) =
      let rest = each_tuple_param items in tuple_param item >>= λ t. rest >>= λ ts. ok (t ∷ ts)

  pub tuple_param : Json → Result TupleParam
  tuple_param (Json.object entries) =
      tuple_entries (record { name = none; kind = none; components = none; internal_type = none })
        entries
      >>= tuple_finish
  tuple_param _ = err (serde_json invalid_type)

  -- The loop over the entries.
  pub tuple_entries : TupleScan → Entries → Result TupleScan
  tuple_entries s Entries.end = ok s
  tuple_entries s (Entries.entry key value rest) =
      tuple_entry s key value (tuple_params value) >>= λ s'. tuple_entries s' rest

abbrev pub optional : Option Bytes → Bytes → Entries → Entries
optional (some v) key rest = Entries.entry key (Json.string v) rest
optional none key rest = rest

-- The entry of the components, if the type has a tuple.
abbrev pub components_entry : Option Jsons → Entries
components_entry (some items) = Entries.entry (text "components") (Json.array items) Entries.end
components_entry none = Entries.end

abbrev pub type_entry : ParamType → Entries → Entries
type_entry kind rest = Entries.entry (text "type") (Json.string (write_for_abi kind false)) rest

unfoldable mutual
  unfolding write_for_abi

  -- `inner_tuple(kind).map(SerializeableParamVec)`, written.
  pub components_json : ParamType → Option Jsons
  components_json (ParamType.array p) = components_json p
  components_json (ParamType.fixed_array p n) = components_json p
  components_json (ParamType.tuple ps) = some (params_json ps)
  components_json _ = none

  -- `SerializeableParamVec`, and `SerializeableParam` for its items.
  pub params_json : ParamTypes → Jsons
  params_json ParamTypes.nil = Jsons.nil
  params_json (ParamTypes.cons p ps) =
      Jsons.cons (Json.object (type_entry p (components_entry (components_json p))))
        (params_json ps)

unfoldable pub tuple_param_json : TupleParam → Json
unfolding components_json
tuple_param_json t = Json.object (
    optional t.internal_type (text "internalType") (
      optional t.name (text "name")
        (type_entry t.kind (components_entry (components_json t.kind)))))
