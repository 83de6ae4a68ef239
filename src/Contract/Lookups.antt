-- ===== src/Contract/Lookups.antt =====
-- What the look-ups by name (ethabi/src/contract.rs) find in a contract that was read from a list
-- of entries.
use ethabi.Base.{
  ◌≡◌, refl, ap, sym, subst, ◌∙◌, inl, inr, if◌then◌else◌, Option, some, none, List, [], ◌∷◌, ◌++◌,
  append_assoc, Bytes, Result, ok, err, invalid_name, BTreeMap, get, get-insert, text_eq,
  text_eq_sound, Bool-cases,
}
use ethabi.Function.{Function}
use ethabi.Event.{Event}
use ethabi.AbiError.{AbiError}
use ethabi.Contract.{
  Operation, constructor_, function_, event_, error_, fallback_, receive_, Contract, empty_contract,
  or_default, push_entry, visit, visit_rest, visit_seq, function, event, error, functions_by_name,
  events_by_name, errors_by_name, first_by_name, all_by_name,
}

abbrev pub as_function : Operation → Option Function
as_function (function_ f) = some f
as_function _ = none

abbrev pub as_event : Operation → Option Event
as_event (event_ e) = some e
as_event _ = none

abbrev pub as_error : Operation → Option AbiError
as_error (error_ e) = some e
as_error _ = none

module _ {V : Type 0} where
  -- The first of the values, or the error for the name.
  abbrev pub first_of : Bytes → List V → Result V
  first_of n [] = err (invalid_name n)
  first_of n (v ∷ vs) = ok v

  abbrev pub all_of : Bytes → List V → Result (List V)
  all_of n [] = err (invalid_name n)
  all_of n (v ∷ vs) = ok (v ∷ vs)

  abbrev all_in : Bytes → Option (List V) → Result (List V)
  all_in n found = elim found [ some vs ↦ ok vs | none ↦ err (invalid_name n) ]

  module _ (pick : Operation → Option V) (name_of : V → Bytes) where
    -- The entries of one kind with the name, in the order of the list.
    abbrev pub entries_named : Bytes → List Operation → List V
    entries_named n [] = []
    entries_named n (op ∷ ops) =
        let rest = entries_named n ops in
        elim (pick op) [ some v ↦ if text_eq n (name_of v) then v ∷ rest else rest | none ↦ rest ]

  abbrev add : Option (List V) → List V → Option (List V)
  add o [] = o
  add o (v ∷ vs) = some (or_default o ++ (v ∷ vs))

  add-push :
      (o : Option (List V)) (v : V) (vs : List V)
      → add (some (or_default o ++ (v ∷ []))) vs ≡ some (or_default o ++ (v ∷ vs))
  add-push o v [] = refl
  add-push o v (u ∷ us) = ap some (append_assoc (or_default o) (v ∷ []) (u ∷ us))

  -- `field` collects the entries of the kind that `pick` recognises.
  module _ (pick : Operation → Option V) (name_of : V → Bytes)
      (field : Contract → BTreeMap (List V))
      (step : (c : Contract) (op : Operation)
        → field (visit c op)
          ≡ elim (pick op) [ some v ↦ push_entry (name_of v) v (field c) | none ↦ field c ]) where
    get-visit_rest :
        (c : Contract) (ops : List Operation) (n : Bytes)
        → get (field (visit_rest c ops)) n
          ≡ add (get (field c) n) (entries_named pick name_of n ops)
    unfolding visit_rest
    get-visit_rest c [] n = refl
    get-visit_rest c (op ∷ ops) n =
        get-visit_rest (visit c op) ops n ∙ (rw (step c op) (by_kind (pick op)))
      where
        by_kind :
            (found : Option V)
            → add
                (get
                  (elim found [ some v ↦ push_entry (name_of v) v (field c) | none ↦ field c ])
                  n)
                (entries_named pick name_of n ops)
              ≡ add (get (field c) n) (elim found [
                | some v ↦
                    if text_eq n (name_of v)
                    then v ∷ entries_named pick name_of n ops
                    else entries_named pick name_of n ops
                | none ↦ entries_named pick name_of n ops
              ])
        by_kind none = refl
        by_kind (some v) =
            rw
              (get-insert (name_of v) n (or_default (get (field c) (name_of v)) ++ (v ∷ []))
                (field c))
              (elim (Bool-cases (text_eq n (name_of v))) [
                | inl e ↦
                    let same : name_of v ≡ n = sym (text_eq_sound n (name_of v) e) in
                    rw (e, same) (add-push (get (field c) n) v (entries_named pick name_of n ops))
                | inr e ↦ rw e
              ])

    named_entries :
        (ops : List Operation) (n : Bytes)
        → field empty_contract ≡ []
        → (first_by_name (field (visit_seq ops)) n ≡ first_of n (entries_named pick name_of n ops))
          × (all_by_name (field (visit_seq ops)) n ≡ all_of n (entries_named pick name_of n ops))
    unfolding visit_seq first_by_name all_by_name
    named_entries ops n none_yet =
        let vs = entries_named pick name_of n ops in
        let got : get (field (visit_seq ops)) n ≡ add none vs =
          get-visit_rest empty_contract ops n ∙ ap (λ m. add (get m n) vs) none_yet in
        subst (λ o. (first_of n (or_default o) ≡ first_of n vs) × (all_in n o ≡ all_of n vs))
          (sym got) (found vs)
      where
        found :
            (vs : List V)
            → (first_of n (or_default (add none vs)) ≡ first_of n vs)
              × (all_in n (add none vs) ≡ all_of n vs)
        found [] = (refl, refl)
        found (v ∷ vs) = (refl, refl)

-- In a contract read from a list of entries, `function` finds the first function of the list with
-- that name and `functions_by_name` all of them in the list's order, and both answer
-- `InvalidName` if there is none.
pub function-visit_seq :
    (ops : List Operation) (n : Bytes)
    → (function (visit_seq ops) n ≡ first_of n (entries_named as_function (λ f. f.name) n ops))
      × (functions_by_name (visit_seq ops) n
          ≡ all_of n (entries_named as_function (λ f. f.name) n ops))
unfolding function functions_by_name visit
function-visit_seq ops n =
    named_entries as_function (λ f. f.name) (λ c. c.functions) step ops n refl
  where
    step :
        (c : Contract) (op : Operation)
        → (visit c op).functions
          ≡ elim (as_function op) [ some v ↦ push_entry v.name v c.functions | none ↦ c.functions ]
    step c (function_ f) = refl
    step c (constructor_ k) = refl
    step c (event_ e) = refl
    step c (error_ e) = refl
    step c fallback_ = refl
    step c receive_ = refl

-- In a contract read from a list of entries, `event` and `error` find the first event and the first
-- error of the list with that name, `events_by_name` and `errors_by_name` all of them in the list's
-- order, and each answers `InvalidName` if there is none.
pub event-visit_seq :
    (ops : List Operation) (n : Bytes)
    → (event (visit_seq ops) n ≡ first_of n (entries_named as_event (λ e. e.name) n ops))
      × (events_by_name (visit_seq ops) n ≡ all_of n (entries_named as_event (λ e. e.name) n ops))
      × (error (visit_seq ops) n ≡ first_of n (entries_named as_error (λ e. e.name) n ops))
      × (errors_by_name (visit_seq ops) n ≡ all_of n (entries_named as_error (λ e. e.name) n ops))
unfolding event events_by_name error errors_by_name visit
event-visit_seq ops n =
    let events = named_entries as_event (λ e. e.name) (λ c. c.events) step_events ops n refl in
    let errors = named_entries as_error (λ e. e.name) (λ c. c.errors) step_errors ops n refl in
    (events.0, events.1, errors.0, errors.1)
  where
    step_events :
        (c : Contract) (op : Operation)
        → (visit c op).events
          ≡ elim (as_event op) [ some v ↦ push_entry v.name v c.events | none ↦ c.events ]
    step_events c (function_ f) = refl
    step_events c (constructor_ k) = refl
    step_events c (event_ e) = refl
    step_events c (error_ e) = refl
    step_events c fallback_ = refl
    step_events c receive_ = refl

    step_errors :
        (c : Contract) (op : Operation)
        → (visit c op).errors
          ≡ elim (as_error op) [ some v ↦ push_entry v.name v c.errors | none ↦ c.errors ]
    step_errors c (function_ f) = refl
    step_errors c (constructor_ k) = refl
    step_errors c (event_ e) = refl
    step_errors c (error_ e) = refl
    step_errors c fallback_ = refl
    step_errors c receive_ = refl
