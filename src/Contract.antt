-- ===== src/Contract.antt =====
-- ethabi/src/contract.rs and ethabi/src/operation.rs, and the names of ethabi/src/util.rs: a
-- contract's entries by name, how they are collected from the list of a JSON file and written back.
pub mod Lookups
pub mod Entries
pub mod Written
pub mod Sanitized
use ethabi.Base.{
  ℕ, ◌==◌, Bool, true, false, if◌then◌else◌, Option, some, none, List, [], ◌∷◌, ◌++◌, map, flatten,
  Bytes, Result, ok, err, invalid_name, ◌>>=◌, BTreeMap, get, insert,
}
use ethabi.Function.{Function}
use ethabi.Event.{Event}
use ethabi.AbiError.{AbiError}
use ethabi.Constructor.{Constructor}

-- `sanitize_name`: what stands before the first parenthesis.
unfoldable pub sanitize_name : Bytes → Bytes
sanitize_name [] = []
sanitize_name (b ∷ bs) = let rest = sanitize_name bs in if b == b'(' then [] else b ∷ rest

pub data Operation : Type 0 where
  constructor_ : Constructor → Operation
  function_ : Function → Operation
  event_ : Event → Operation
  error_ : AbiError → Operation
  fallback_ : Operation
  receive_ : Operation

pub record Contract : Type 0 where
  pub constructor_entry : Option Constructor
  pub functions : BTreeMap (List Function)
  pub events : BTreeMap (List Event)
  pub errors : BTreeMap (List AbiError)
  pub receive : Bool
  pub fallback : Bool

-- `Contract::default()`
abbrev pub empty_contract : Contract
empty_contract = record {
  constructor_entry = none;
  functions = [];
  events = [];
  errors = [];
  receive = false;
  fallback = false;
}

module _ {ℓ} {V : Type ℓ} where
  -- `or_default()` for a vector.
  abbrev pub or_default : Option (List V) → List V
  or_default found = elim found [ some vs ↦ vs | none ↦ [] ]

  -- `entries.entry(name).or_default().push(v)`
  abbrev pub push_entry : Bytes → V → BTreeMap (List V) → BTreeMap (List V)
  push_entry name v m = insert name (or_default (get m name) ++ (v ∷ [])) m

  -- `entries.values().flatten()`
  abbrev pub all_entries : BTreeMap (List V) → List V
  all_entries m = flatten (map (λ (kv : Bytes × List V). kv.1) m)

  -- `entries.get(name).into_iter().flatten().next().ok_or_else(...)`
  unfoldable pub first_by_name : BTreeMap (List V) → Bytes → Result V
  first_by_name m name = elim (or_default (get m name)) [
    | [] ↦ err (invalid_name name)
    | v ∷ _ ↦ ok v
  ]

  -- `entries.get(name).ok_or_else(...)`
  unfoldable pub all_by_name : BTreeMap (List V) → Bytes → Result (List V)
  all_by_name m name = elim (get m name) [ some vs ↦ ok vs | none ↦ err (invalid_name name) ]

-- One round of the loop in `visit_seq`.
unfoldable pub visit : Contract → Operation → Contract
visit c (constructor_ k) = record c { constructor_entry = some k }
visit c (function_ f) = record c { functions = push_entry f.name f c.functions }
visit c (event_ e) = record c { events = push_entry e.name e c.events }
visit c (error_ e) = record c { errors = push_entry e.name e c.errors }
visit c fallback_ = record c { fallback = true }
visit c receive_ = record c { receive = true }

unfoldable pub visit_rest : Contract → List Operation → Contract
unfolding visit
visit_rest c [] = c
visit_rest c (op ∷ ops) = visit_rest (visit c op) ops

unfoldable pub visit_seq : List Operation → Contract
unfolding visit_rest
visit_seq ops = visit_rest empty_contract ops

-- The elements that `serialize` writes, in its order.
unfoldable pub serialize : Contract → List Operation
serialize c =
    elim c.constructor_entry [ some k ↦ constructor_ k ∷ [] | none ↦ [] ]
    ++ (map function_ (all_entries c.functions)
        ++ (map event_ (all_entries c.events)
            ++ (map error_ (all_entries c.errors)
                ++ ((if c.receive then receive_ ∷ [] else [])
                    ++ (if c.fallback then fallback_ ∷ [] else [])))))

unfoldable pub constructor_of : Contract → Option Constructor
constructor_of c = c.constructor_entry

unfoldable pub function : Contract → Bytes → Result Function
unfolding first_by_name
function c name = first_by_name c.functions name

unfoldable pub event : Contract → Bytes → Result Event
unfolding first_by_name
event c name = first_by_name c.events name

unfoldable pub error : Contract → Bytes → Result AbiError
unfolding first_by_name
error c name = first_by_name c.errors name

unfoldable pub functions_by_name : Contract → Bytes → Result (List Function)
unfolding all_by_name
functions_by_name c name = all_by_name c.functions name

unfoldable pub events_by_name : Contract → Bytes → Result (List Event)
unfolding all_by_name
events_by_name c name = all_by_name c.events name

unfoldable pub errors_by_name : Contract → Bytes → Result (List AbiError)
unfolding all_by_name
errors_by_name c name = all_by_name c.errors name

-- The iterators.
unfoldable pub all_functions : Contract → List Function
all_functions c = all_entries c.functions

unfoldable pub all_events : Contract → List Event
all_events c = all_entries c.events

unfoldable pub all_errors : Contract → List AbiError
all_errors c = all_entries c.errors
