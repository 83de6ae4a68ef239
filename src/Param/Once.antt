-- ===== src/Param/Once.antt =====
-- The visitor of `Param` (ethabi/src/param.rs) takes each of its fields once.
use ethabi.Base.{
  ℕ, ◌+◌, ◌≤◌, Bool, true, false, Bool-cases, if◌then◌else◌, Option, some, none, List, Bytes, text,
  text_eq, text_eq_sound, Result, ok, err, panic, ◌>>=◌, bind_ok, ok_or, Error, serde_json,
  missing_field, ◌≡◌, refl, sym, ap, ◌∙◌, ◌⊎◌, ◌≢◌, inl, inr, subst, arith,
}
use ethabi.Json.{Json, Entries, string_value}
use ethabi.Param.{Param}
use ethabi.Param.Tuples.{fresh, kind_value, tuple_params, set_tuple_components}
use ethabi.Param.Visitors.{ParamScan, param_entry, param_entries, param_finish, param_value}

-- How many of the entries have the key.
abbrev hit : Bytes → Bytes → ℕ
hit key field = if text_eq key field then 1 else 0

abbrev pub occurrences : Bytes → Entries → ℕ
occurrences field Entries.end = 0
occurrences field (Entries.entry key value rest) = hit key field + occurrences field rest

abbrev filled : {T : Type 0} → Option T → ℕ
filled none = 0
filled (some t) = 1

-- The fields that `s'` has more than `s`.
abbrev Gains : ParamScan → ParamScan → (Bytes → ℕ) → Type 0
Gains s s' n =
    (filled s.name + n (text "name") ≡ filled s'.name)
    × (filled s.kind + n (text "type") ≡ filled s'.kind)
    × (filled s.internal_type + n (text "internalType") ≡ filled s'.internal_type)
    × (filled s.components + n (text "components") ≡ filled s'.components)

fresh_once :
    {T : Type 0} (field : Bytes) (old : Option T) (r : Result T) (put : Option T → ParamScan)
    (s' : ParamScan)
    → (fresh field old r >>= λ v. ok (put v)) ≡ ok s'
    → (old ≡ none) × ((t : T) × (put (some t) ≡ s'))
fresh_once field (some t) r put s' h = absurd (cc)
fresh_once field none panic put s' h = absurd (cc)
fresh_once field none (err e) put s' h = absurd (cc)
fresh_once field none (ok t) put s' h = (refl, (t, cc))

name_entry :
    (s s' : ParamScan) (value : Json)
    → param_entry s (text "name") value ≡ ok s'
    → Gains s s' (hit (text "name"))
unfolding param_entry ethabi.Base.text_eq
name_entry s s' value h =
    let once =
      fresh_once (text "name") s.name (string_value value) (λ v. record s { name = v }) s' h in
    let empty : filled s.name + 1 ≡ 1 = rw once.0 refl in
    subst (λ z. Gains s z (hit (text "name"))) once.1.1
      (empty, omega arith, omega arith, omega arith)

kind_entry :
    (s s' : ParamScan) (value : Json)
    → param_entry s (text "type") value ≡ ok s'
    → Gains s s' (hit (text "type"))
unfolding param_entry ethabi.Base.text_eq
kind_entry s s' value h =
    let once =
      fresh_once (text "kind") s.kind (kind_value value) (λ v. record s { kind = v }) s' h in
    let empty : filled s.kind + 1 ≡ 1 = rw once.0 refl in
    subst (λ z. Gains s z (hit (text "type"))) once.1.1
      (omega arith, empty, omega arith, omega arith)

internal_entry :
    (s s' : ParamScan) (value : Json)
    → param_entry s (text "internalType") value ≡ ok s'
    → Gains s s' (hit (text "internalType"))
unfolding param_entry ethabi.Base.text_eq
internal_entry s s' value h =
    let once =
      fresh_once (text "internalType") s.internal_type (string_value value)
        (λ v. record s { internal_type = v }) s' h in
    let empty : filled s.internal_type + 1 ≡ 1 = rw once.0 refl in
    subst (λ z. Gains s z (hit (text "internalType"))) once.1.1
      (omega arith, omega arith, empty, omega arith)

nested_entry :
    (s s' : ParamScan) (value : Json)
    → param_entry s (text "components") value ≡ ok s'
    → Gains s s' (hit (text "components"))
unfolding param_entry ethabi.Base.text_eq
nested_entry s s' value h =
    let once =
      fresh_once (text "components") s.components (tuple_params value)
        (λ v. record s { components = v }) s' h in
    let empty : filled s.components + 1 ≡ 1 = rw once.0 refl in
    subst (λ z. Gains s z (hit (text "components"))) once.1.1
      (omega arith, omega arith, omega arith, empty)

on_key :
    (s s' : ParamScan) (key k : Bytes) (value : Json)
    → text_eq key k ≡ true
    → (param_entry s k value ≡ ok s' → Gains s s' (hit k))
    → param_entry s key value ≡ ok s'
    → Gains s s' (hit key)
on_key s s' key k value e known =
    subst (λ key. param_entry s key value ≡ ok s' → Gains s s' (hit key))
      (sym (text_eq_sound key k e)) known

param_entry-Gains :
    (s s' : ParamScan) (key : Bytes) (value : Json)
    → param_entry s key value ≡ ok s'
    → Gains s s' (hit key)
unfolding param_entry
param_entry-Gains s s' key value h = elim (Bool-cases (text_eq key (text "name"))) [
  | inl e ↦ on_key s s' key (text "name") value e (name_entry s s' value) h
  | inr e ↦ elim (Bool-cases (text_eq key (text "type"))) [
    | inl e2 ↦ on_key s s' key (text "type") value e2 (kind_entry s s' value) h
    | inr e2 ↦ elim (Bool-cases (text_eq key (text "internalType"))) [
      | inl e3 ↦ on_key s s' key (text "internalType") value e3 (internal_entry s s' value) h
      | inr e3 ↦ elim (Bool-cases (text_eq key (text "components"))) [
        | inl e4 ↦ on_key s s' key (text "components") value e4 (nested_entry s s' value) h
        | inr e4 ↦
            let same : ok s ≡ ok s' = (rw (e, e2, e3, e4, param_entry) at h) in
            let same' : s ≡ s' = cc in
            rw (e, e2, e3, e4)
              (subst (λ z. Gains s z (λ _. 0)) same'
                (omega arith, omega arith, omega arith, omega arith))
      ]
    ]
  ]
]

param_entries-Gains :
    (es : Entries) (s s' : ParamScan)
    → param_entries s es ≡ ok s'
    → Gains s s' (λ field. occurrences field es)
unfolding param_entries
param_entries-Gains Entries.end s s' h =
    let same : s ≡ s' = cc in
    subst (λ z. Gains s z (λ _. 0)) same (omega arith, omega arith, omega arith, omega arith)
param_entries-Gains (Entries.entry key value rest) s s' h =
    let m = bind_ok (param_entry s key value) (λ z. param_entries z rest) s' h in
    let first = param_entry-Gains s m.0 key value m.1 in
    let later = param_entries-Gains rest m.0 s' m.2 in
    (omega arith, omega arith, omega arith, omega arith)

filled_one : {T : Type 0} (o : Option T) → filled o ≤ 1
filled_one none = omega arith
filled_one (some t) = omega arith

given : {T : Type 0} (o : Option T) (e : Error) (t : T) → ok_or o e ≡ ok t → filled o ≡ 1
given none e t h = absurd (cc)
given (some u) e t h = refl

param_finish-filled :
    (s : ParamScan) (p : Param) → param_finish s ≡ ok p → (filled s.name ≡ 1) × (filled s.kind ≡ 1)
unfolding param_finish
param_finish-filled s p h =
    let n =
      bind_ok (ok_or s.name (serde_json (missing_field (text "name"))))
        (λ name. ok_or s.kind (serde_json (missing_field (text "kind"))) >>= λ kind.
          set_tuple_components kind s.components >>= λ kind.
          ok (record { name = name; kind = kind; internal_type = s.internal_type }))
        p h in
    let k =
      bind_ok (ok_or s.kind (serde_json (missing_field (text "kind"))))
        (λ kind. set_tuple_components kind s.components >>= λ kind.
          ok (record { name = n.0; kind = kind; internal_type = s.internal_type }))
        p n.2 in
    (
      given s.name (serde_json (missing_field (text "name"))) n.0 n.1,
      given s.kind (serde_json (missing_field (text "kind"))) k.0 k.1,
    )

-- A parameter is read only from an object that has the keys "name" and "type" once each, and each of
-- "internalType" and "components" at most once.
pub param_value_once :
    (es : Entries) (p : Param)
    → param_value (Json.object es) ≡ ok p
    → (occurrences (text "name") es ≡ 1)
      × (occurrences (text "type") es ≡ 1)
      × (occurrences (text "internalType") es ≤ 1)
      × (occurrences (text "components") es ≤ 1)
unfolding param_value
param_value_once es p h =
    let start : ParamScan = record {
      name = none;
      kind = none;
      components = none;
      internal_type = none;
    } in
    let m = bind_ok (param_entries start es) param_finish p h in
    let gains = param_entries-Gains es start m.0 m.1 in
    let both = param_finish-filled m.0 p m.2 in
    let i = filled_one m.0.internal_type in
    let c = filled_one m.0.components in (omega arith, omega arith, omega arith, omega arith)
