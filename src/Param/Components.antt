-- ===== src/Param/Components.antt =====
-- The components of a tuple (ethabi/src/param.rs, ethabi/src/tuple_param.rs): how they are written
-- for a type, and what the loop over the entries of a map reads of them.
use ethabi.Base.{
  Bool, false, serde_json, custom, missing_field, panic, Option-cases, Option, some, none, List, [],
  ◌∷◌, Bytes, text, Result, ok, err, ◌>>=◌, map_ok, ◌≡◌, refl, ap, sym, ◌∙◌, ◌⊎◌, inl, inr, subst,
}
use ethabi.ParamType.{ParamType, ParamTypes}
use ethabi.ParamType.Outline.{outline, IsSized, AreSized}
use ethabi.ParamType.Reader.Printed.{outline_written}
use ethabi.ParamType.Writer.{write_for_abi}
use ethabi.Json.{Json, Jsons, Entries}
use ethabi.Param.Tuples.{
  TupleParam, TupleScan, inner_tuple, kind_value, extend_inner, set_tuple_components, tuple_params,
  each_tuple_param, tuple_param, tuple_entries, tuple_finish, tuple_kinds, type_entry, tuple_entry,
  components_entry, components_json, params_json,
}

abbrev bare : ParamTypes → List TupleParam
bare ParamTypes.nil = []
bare (ParamTypes.cons p ps) = record { name = none; kind = p; internal_type = none } ∷ bare ps

-- The components that are read back.
abbrev pub bare_components : ParamType → Option (List TupleParam)
bare_components (ParamType.array p) = bare_components p
bare_components (ParamType.fixed_array p n) = bare_components p
bare_components (ParamType.tuple ps) = some (bare ps)
bare_components _ = none

kinds-bare : (ps : ParamTypes) → tuple_kinds (bare ps) ≡ ps
unfolding tuple_kinds
kinds-bare ParamTypes.nil = refl
kinds-bare (ParamTypes.cons p ps) = ap (ParamTypes.cons p) (kinds-bare ps)

set-array :
    (p : ParamType) (cs : Option (List TupleParam)) (q : ParamType) (n : _)
    → set_tuple_components p cs ≡ ok q
    → (set_tuple_components (ParamType.array p) cs ≡ ok (ParamType.array q))
      × (set_tuple_components (ParamType.fixed_array p n) cs ≡ ok (ParamType.fixed_array q n))
unfolding set_tuple_components
set-array p cs q n h = elim (Option-cases (inner_tuple p)) [
  | inl e ↦
      let h' : ok p ≡ ok q = (rw (e, set_tuple_components) at h) in
      rw (e, set_tuple_components) ((cc, cc))
  | inr e ↦ elim (Option-cases cs) [
    | inl d ↦
        let h' : err (serde_json (missing_field (text "components"))) ≡ ok q =
          (rw (e.1, d, set_tuple_components) at h) in
        absurd (cc)
    | inr d ↦
        let h' : ok (extend_inner p (tuple_kinds d.0)) ≡ ok q =
          (rw (e.1, d.1, set_tuple_components) at h) in
        rw (e.1, d.1, set_tuple_components) ((cc, cc))
  ]
]

pub set-outline : (p : ParamType) → set_tuple_components (outline p) (bare_components p) ≡ ok p
unfolding set_tuple_components
set-outline (ParamType.array p) = (set-array (outline p) (bare_components p) p 0 (set-outline p)).0
set-outline (ParamType.fixed_array p n) =
    (set-array (outline p) (bare_components p) p n (set-outline p)).1
set-outline (ParamType.tuple ps) = ap (λ qs. ok (ParamType.tuple qs)) (kinds-bare ps)
set-outline _ = refl

pub kind-written :
    (p : ParamType) → IsSized p → kind_value (Json.string (write_for_abi p false)) ≡ ok (outline p)
unfolding kind_value
kind-written p h =
    ap (λ r. elim r [ ok q ↦ ok q | err e ↦ err (serde_json custom) | panic ↦ panic ])
      (outline_written p h).1

-- The components as they are written, and read.
abbrev Nested : ParamType → Type 0
Nested p =
    ((components_json p ≡ none) × (bare_components p ≡ none))
    ⊎ ((items : Jsons) × (ts : List TupleParam) × (components_json p ≡ some items)
        × (tuple_params (Json.array items) ≡ ok ts)
        × (bare_components p ≡ some ts))

-- A loop over the entries of a map.
module _ {S : Type 0} (loop : S → Entries → Result S) (step : S → Bytes → Json → Result S)
    (loop-end : (s : S) → loop s Entries.end ≡ ok s)
    (loop-entry : (s : S) (key : Bytes) (value : Json) (rest : Entries)
      → loop s (Entries.entry key value rest) ≡ (step s key value >>= λ s'. loop s' rest)) where
  pub loop_step :
      (s s' : S) (key : Bytes) (value : Json) (rest : Entries)
      → step s key value ≡ ok s'
      → loop s (Entries.entry key value rest) ≡ loop s' rest
  loop_step s s' key value rest h =
      loop-entry s key value rest ∙ ap (λ r. r >>= λ s'. loop s' rest) h

  pub loop-components :
      (put : Option (List TupleParam) → S) (p : ParamType)
      → Nested p
      → ((value : Json) (ts : List TupleParam)
          → tuple_params value ≡ ok ts
          → step (put none) (text "components") value ≡ ok (put (some ts)))
      → loop (put none) (components_entry (components_json p)) ≡ ok (put (bare_components p))
  loop-components put p (inl h) one =
      ap (λ c. loop (put none) (components_entry c)) h.0
      ∙ loop-end (put none)
      ∙ ap (λ c. ok (put c)) (sym h.1)
  loop-components put p (inr h) one =
      let items = h.0 in
      ap (λ c. loop (put none) (components_entry c)) h.2
      ∙ loop_step (put none) (put (some h.1)) (text "components") (Json.array items) Entries.end
          (one (Json.array items) h.1 h.3)
      ∙ loop-end (put (some h.1))
      ∙ ap (λ c. ok (put c)) (sym h.4)

abbrev pub tuple_step : TupleScan → Bytes → Json → Result TupleScan
tuple_step s key value = tuple_entry s key value (tuple_params value)

pub tuple_entries-end : (s : TupleScan) → tuple_entries s Entries.end ≡ ok s
unfolding tuple_entries
tuple_entries-end s = refl

pub tuple_entries-entry :
    (s : TupleScan) (key : Bytes) (value : Json) (rest : Entries)
    → tuple_entries s (Entries.entry key value rest)
      ≡ (tuple_step s key value >>= λ s'. tuple_entries s' rest)
unfolding tuple_entries
tuple_entries-entry s key value rest = refl

-- What is read of a type and of its components, with a name and an internal type.
module _ (name internal_type : Option Bytes) where
  abbrev pub seen : Option ParamType → Option (List TupleParam) → TupleScan
  seen kind components = record {
    name = name;
    kind = kind;
    components = components;
    internal_type = internal_type;
  }

  tuple_entry-type :
      (value : Json) (n : Result (List TupleParam)) (p : ParamType)
      → kind_value value ≡ ok p
      → tuple_entry (seen none none) (text "type") value n ≡ ok (seen (some p) none)
  unfolding tuple_entry ethabi.Base.text_eq
  tuple_entry-type value n p h = ap (λ r. map_ok some r >>= λ v. ok (seen v none)) h

  tuple_entry-components :
      (kind : Option ParamType) (value : Json) (ts : List TupleParam)
      → tuple_params value ≡ ok ts
      → tuple_step (seen kind none) (text "components") value ≡ ok (seen kind (some ts))
  unfolding tuple_entry ethabi.Base.text_eq
  tuple_entry-components kind value ts h = ap (λ r. map_ok some r >>= λ v. ok (seen kind v)) h

  tuple_finish-bare :
      (p : ParamType)
      → tuple_finish (seen (some (outline p)) (bare_components p))
        ≡ ok (record { name = name; kind = p; internal_type = internal_type })
  unfolding tuple_finish
  tuple_finish-bare p =
      ap (λ r. r >>= λ k. ok (record { name = name; kind = k; internal_type = internal_type }))
        (set-outline p)

  pub tuple_entries-kind :
      (p : ParamType)
      → IsSized p
      → Nested p
      → (tuple_entries (seen none none) (type_entry p (components_entry (components_json p)))
          >>= tuple_finish)
        ≡ ok (record { name = name; kind = p; internal_type = internal_type })
  tuple_entries-kind p h deep =
      ap (λ r. r >>= tuple_finish)
        (loop_step tuple_entries tuple_step tuple_entries-end tuple_entries-entry (seen none none)
            (seen (some (outline p)) none) (text "type") (Json.string (write_for_abi p false))
            (components_entry (components_json p))
            (tuple_entry-type (Json.string (write_for_abi p false))
              (tuple_params (Json.string (write_for_abi p false))) (outline p) (kind-written p h))
          ∙ loop-components tuple_entries tuple_step tuple_entries-end tuple_entries-entry
              (λ c. seen (some (outline p)) c) p deep (tuple_entry-components (some (outline p))))
      ∙ tuple_finish-bare p

abbrev bare_param : ParamType → TupleParam
bare_param p = record { name = none; kind = p; internal_type = none }

pub tuple_param-entries :
    (es : Entries)
    → tuple_param (Json.object es) ≡ (tuple_entries (seen none none none none) es >>= tuple_finish)
unfolding tuple_param
tuple_param-entries es = refl

tuple_param-json :
    (p : ParamType)
    → IsSized p
    → Nested p
    → tuple_param (Json.object (type_entry p (components_entry (components_json p))))
      ≡ ok (bare_param p)
tuple_param-json p h deep =
    tuple_param-entries (type_entry p (components_entry (components_json p)))
    ∙ tuple_entries-kind none none p h deep

mutual
  unfolding components_json tuple_params

  each-params_json :
      (ps : ParamTypes) → AreSized ps → each_tuple_param (params_json ps) ≡ ok (bare ps)
  each-params_json ParamTypes.nil h = refl
  each-params_json (ParamTypes.cons p ps) h =
      let one = tuple_param-json p h.0 (nested p h.0) in
      let rest = each-params_json ps h.1 in
      ap (λ r. r >>= λ t. each_tuple_param (params_json ps) >>= λ ts. ok (t ∷ ts)) one
      ∙ ap (λ r. r >>= λ ts. ok (bare_param p ∷ ts)) rest

  pub nested : (p : ParamType) → IsSized p → Nested p
  nested (ParamType.array p) h = nested p h
  nested (ParamType.fixed_array p n) h = nested p h.1
  nested (ParamType.tuple ps) h = inr (params_json ps, bare ps, refl, each-params_json ps h, refl)
  nested _ h = inl (refl, refl)
