-- ===== src/Contract/Written.antt =====
-- Writing a contract and reading it back (`serialize` and `visit_seq` in ethabi/src/contract.rs).
use ethabi.Base.{
  ◌≡◌, refl, ap, ◌∙◌, Bool, true, false, if◌then◌else◌, Option, some, none, List, [], ◌∷◌, ◌++◌,
  map,
}
use ethabi.Function.{Function}
use ethabi.Event.{Event}
use ethabi.AbiError.{AbiError}
use ethabi.Constructor.{Constructor}
use ethabi.Contract.{
  Operation, constructor_, function_, event_, error_, fallback_, receive_, Contract, empty_contract,
  all_entries, visit, visit_rest, visit_seq, serialize,
}
use ethabi.Contract.Entries.{AreEntries, AreEntries-push_entry, push_all, push_all-all_entries}

-- Each map of the contract is ordered, and holds entries under their own names only.
abbrev pub IsContract : Contract → Type 0
IsContract c =
    AreEntries (λ (f : Function). f.name) c.functions
    × AreEntries (λ (e : Event). e.name) c.events
    × AreEntries (λ (e : AbiError). e.name) c.errors

visit-IsContract : (c : Contract) (op : Operation) → IsContract c → IsContract (visit c op)
unfolding visit
visit-IsContract c (constructor_ k) h = h
visit-IsContract c (function_ f) h =
    (AreEntries-push_entry (λ f. f.name) f c.functions h.0, h.1, h.2)
visit-IsContract c (event_ e) h = (h.0, AreEntries-push_entry (λ e. e.name) e c.events h.1, h.2)
visit-IsContract c (error_ e) h = (h.0, h.1, AreEntries-push_entry (λ e. e.name) e c.errors h.2)
visit-IsContract c fallback_ h = h
visit-IsContract c receive_ h = h

visit_rest-IsContract :
    (c : Contract) (ops : List Operation) → IsContract c → IsContract (visit_rest c ops)
unfolding visit_rest
visit_rest-IsContract c [] h = h
visit_rest-IsContract c (op ∷ ops) h =
    visit_rest-IsContract (visit c op) ops (visit-IsContract c op h)

-- What stands first is visited first.
visit_rest-append :
    (c d : Contract) (ops later : List Operation)
    → visit_rest c ops ≡ d
    → visit_rest c (ops ++ later) ≡ visit_rest d later
unfolding visit_rest
visit_rest-append c d [] later h = ap (λ c. visit_rest c later) h
visit_rest-append c d (op ∷ ops) later h = visit_rest-append (visit c op) d ops later h

visit_rest-functions :
    (c : Contract) (fs : List Function)
    → visit_rest c (map function_ fs)
      ≡ record c { functions = push_all (λ f. f.name) fs c.functions }
unfolding visit_rest visit
visit_rest-functions c [] = refl
visit_rest-functions c (f ∷ fs) = visit_rest-functions (visit c (function_ f)) fs

visit_rest-events :
    (c : Contract) (es : List Event)
    → visit_rest c (map event_ es) ≡ record c { events = push_all (λ e. e.name) es c.events }
unfolding visit_rest visit
visit_rest-events c [] = refl
visit_rest-events c (e ∷ es) = visit_rest-events (visit c (event_ e)) es

visit_rest-errors :
    (c : Contract) (es : List AbiError)
    → visit_rest c (map error_ es) ≡ record c { errors = push_all (λ e. e.name) es c.errors }
unfolding visit_rest visit
visit_rest-errors c [] = refl
visit_rest-errors c (e ∷ es) = visit_rest-errors (visit c (error_ e)) es

visit_rest-constructor :
    (k : Option Constructor)
    → visit_rest empty_contract (elim k [ some k ↦ constructor_ k ∷ [] | none ↦ [] ])
      ≡ record empty_contract { constructor_entry = k }
unfolding visit_rest visit
visit_rest-constructor none = refl
visit_rest-constructor (some k) = refl

visit_rest-flags :
    (c : Contract) (receive fallback : Bool)
    → visit_rest
        (record c { receive = false; fallback = false })
        ((if receive then receive_ ∷ [] else []) ++ (if fallback then fallback_ ∷ [] else []))
      ≡ record c { receive = receive; fallback = fallback }
unfolding visit_rest visit
visit_rest-flags c true true = refl
visit_rest-flags c true false = refl
visit_rest-flags c false true = refl
visit_rest-flags c false false = refl

-- The entries that a contract is written as are read back into the same contract.
visit_seq-written : (c : Contract) → IsContract c → visit_seq (serialize c) ≡ c
unfolding visit_seq serialize
visit_seq-written c h =
    let c₁ = record empty_contract { constructor_entry = c.constructor_entry } in
    let c₂ = record c₁ { functions = c.functions } in
    let c₃ = record c₂ { events = c.events } in
    let c₄ = record c₃ { errors = c.errors } in
    let flags =
      (if c.receive then receive_ ∷ [] else []) ++ (if c.fallback then fallback_ ∷ [] else []) in
    let errors = map error_ (all_entries c.errors) in
    let events = map event_ (all_entries c.events) in
    let functions = map function_ (all_entries c.functions) in
    let first : List Operation = elim c.constructor_entry [
      | some k ↦ constructor_ k ∷ []
      | none ↦ []
    ] in
    visit_rest-append empty_contract c₁ first (functions ++ (events ++ (errors ++ flags)))
      (visit_rest-constructor c.constructor_entry)
    ∙ visit_rest-append c₁ c₂ functions (events ++ (errors ++ flags)) (
        visit_rest-functions c₁ (all_entries c.functions)
        ∙ ap (λ m. record c₁ { functions = m })
            (push_all-all_entries (λ f. f.name) c.functions h.0))
    ∙ visit_rest-append c₂ c₃ events (errors ++ flags) (
        visit_rest-events c₂ (all_entries c.events)
        ∙ ap (λ m. record c₂ { events = m }) (push_all-all_entries (λ e. e.name) c.events h.1))
    ∙ visit_rest-append c₃ c₄ errors flags (
        visit_rest-errors c₃ (all_entries c.errors)
        ∙ ap (λ m. record c₃ { errors = m }) (push_all-all_entries (λ e. e.name) c.errors h.2))
    ∙ visit_rest-flags c c.receive c.fallback

-- A contract that was read from any list of entries is ordered by name with the entries under
-- their own names, and reading what it is written as gives the same contract.
pub visit_seq-serialize :
    (ops : List Operation)
    → IsContract (visit_seq ops) × (visit_seq (serialize (visit_seq ops)) ≡ visit_seq ops)
unfolding visit_seq
visit_seq-serialize ops =
    let kept = visit_rest-IsContract empty_contract ops (tt, tt, tt) in
    (kept, visit_seq-written (visit_seq ops) kept)
