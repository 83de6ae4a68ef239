-- ===== src/Cli.antt =====
-- cli/src/main.rs: the command line, from its parsed arguments to the text it prints.
pub mod Loading
pub mod Commands
pub mod RoundTrip
use ethabi.Base.{
  ℕ, ◌+◌, ◌==◌, Bool, if◌then◌else◌, Option, some, none, List, [], ◌∷◌, ◌++◌, take, Bytes, Result,
  ok, err, panic, other, ◌>>=◌, text, text_eq,
}
use ethabi.Externs.{Externs}
use ethabi.Function
use ethabi.Function.{Function}
use ethabi.Event
use ethabi.Event.{Event}
use ethabi.Contract.{Contract, functions_by_name, events_by_name}
use ethabi.Token.Conversions.{Printers}
use ethabi.Tokenizer.Lenient.{Decimals}

-- What the commands call of other crates, and `File::open` followed by `Contract::load`. An
-- `anyhow::Error` is an error of ethabi, or a message.
pub record Tools : Type 0 where
  pub externs : Externs
  pub decimals : Decimals
  pub printers : Printers
  pub load : Bytes → Result Contract
  -- `Display` of a hash, and `str::parse::<Hash>`.
  pub show_hash : Bytes → Bytes
  pub parse_hash : Bytes → Result Bytes

-- `text.find('(')`
unfoldable pub find_paren : Bytes → Option ℕ
find_paren [] = none
find_paren (b ∷ bs) =
    let rest = find_paren bs in
    if b == b'(' then some 0 else elim rest [ some n ↦ some (n + 1) | none ↦ none ]

-- `iter().find(test)`
abbrev pub find {ℓ} : {T : Type ℓ} → (T → Bool) → List T → Option T
find test [] = none
find test (t ∷ ts) = let rest = find test ts in if test t then some t else rest

-- `text.replace(' ', "")`
unfoldable pub remove_spaces : Bytes → Bytes
remove_spaces [] = []
remove_spaces (b ∷ bs) = let rest = remove_spaces bs in if b == b' ' then rest else b ∷ rest

abbrev pub found {ℓ} : {T : Type ℓ} → Option T → Bytes → Result T
found (some t) message = ok t
found none message = err (other message)

-- The only one of the entries with a name.
unfoldable pub only {ℓ} : {T : Type ℓ} → List T → Bytes → Result T
only [] name = panic
only (t ∷ []) name = ok t
only (t ∷ u ∷ us) name = err (
    other (
      text "More than one function found for name `"
      ++ (name ++ text "`, try providing the full signature")))

module _ (t : Tools) where
  unfoldable pub load_function : Bytes → Bytes → Result Function
  unfolding find_paren functions_by_name Function.signature only
  load_function path name_or_signature = do
    contract ← t.load path
    elim (find_paren name_or_signature) [
      | some params_start ↦
          functions_by_name contract (take params_start name_or_signature) >>= λ functions.
          found (find (λ f. text_eq (Function.signature f) name_or_signature) functions)
            (text "invalid function signature `" ++ (name_or_signature ++ text "`"))
      | none ↦ functions_by_name contract name_or_signature >>= λ functions.
          only functions name_or_signature
    ]

  unfoldable pub hash_signature : Bytes → Bytes
  unfolding remove_spaces
  hash_signature sig = t.externs.keccak256 (remove_spaces sig)

  unfoldable pub load_event : Bytes → Bytes → Result Event
  unfolding find_paren events_by_name Event.signature only hash_signature
  load_event path name_or_signature = do
    contract ← t.load path
    elim (find_paren name_or_signature) [
      | some params_start ↦
          (let signature = hash_signature name_or_signature in
            events_by_name contract (take params_start name_or_signature) >>= λ events.
            found (find (λ e. text_eq (Event.signature t.externs e) signature) events)
              (text "Invalid signature `" ++ (t.show_hash signature ++ text "`")))
      | none ↦ events_by_name contract name_or_signature >>= λ events. only events name_or_signature
    ]
