-- ===== src/Tests/Derived.antt =====
-- The generated code.
use ethabi.Base.{
  ℕ, Bool, ◌-◌, leb, ◌&&◌, if◌then◌else◌, true, false, some, none, List, [], ◌∷◌, map, Bytes,
  Result, ok, panic, ◌>>=◌, text, ◌≡◌, ◌≢◌, refl, arith,
}
use ethabi.ParamType.{ParamType}
use ethabi.Param.{payable}
use ethabi.Token
use ethabi.Token.{Token, Tokens, type_check}
use ethabi.Signature.{long_signature}
use ethabi.Function
use ethabi.Function.{Function}
use ethabi.Event
use ethabi.Event.{Event, convert_topic_param_type}
use ethabi.Derive.{Expr, ident, from_token, next_items, mapped, expect, method}
use ethabi.Derive.Run
use ethabi.Derive.Run.{Value, Values, Env, run, run_type, lookup, refused}
use ethabi.Derive.Keywords.{is_keyword}
use ethabi.Derive.Parts.{Crates, input_names, function_expr}
use ethabi.Derive.EventParts.{log_iter, EventInterface, from_event, event_expr}
use ethabi.Derive.RecreatedEvents.{IsNamedEvent, run_event, from_event-recreated}
use ethabi.Derive.Topics.{log_env, from_token-topic}
use ethabi.Derive.Inputs.{encode_with}
use ethabi.Tests.Samples.{externs}

abbrev capital : Bytes → Bytes
capital [] = []
capital (b ∷ bs) = (if leb 97 b && leb b 122 then b - 32 else b) ∷ bs

-- Enough of the identifiers of Rust for the names here.
abbrev is_ident : Bytes → Bool
is_ident [] = false
is_ident (b ∷ bs) = leb 65 b && leb b 122

abbrev pub crates : Crates
crates = record { is_ident = is_ident; to_snake_case = λ s. s; to_upper_camel_case = capital }

-- uint8[][2]
abbrev grid : ParamType
grid = ParamType.fixed_array (ParamType.array (ParamType.uint 8)) 2

abbrev pub send : Function
send = record {
  name = text "send";
  inputs =
      record {
        name = [];
        kind = ParamType.array (ParamType.fixed_bytes 2);
        internal_type = some (text "bytes2[]");
      }
      ∷ (record { name = text "self"; kind = grid; internal_type = none } ∷ []);
  outputs = record { name = []; kind = ParamType.bool; internal_type = none } ∷ [];
  constant = none;
  state_mutability = payable;
}

abbrev codes : Value
codes = Run.vec (Run.cons (Run.byte_array (1 ∷ 2 ∷ [])) Run.nil)

abbrev grid_value : Value
grid_value =
    Run.array
      (Run.cons (Run.vec (Run.cons (Run.u256 7) Run.nil)) (Run.cons (Run.vec Run.nil) Run.nil))

abbrev env : Env
env = (text "param0", codes) ∷ ((text "_self", grid_value) ∷ [])

abbrev codes_token : Token
codes_token = Token.array (Token.cons (Token.fixed_bytes (1 ∷ 2 ∷ [])) Token.nil)

abbrev grid_token : Token
grid_token = Token.fixed_array (
    Token.cons (Token.array (Token.cons (Token.uint 7) Token.nil))
      (Token.cons (Token.array Token.nil) Token.nil))

-- The fragment for an array of fixed size calls a method that tokens do not have.
no_array :
    run ((text "t", Run.token grid_token) ∷ []) (method (ident (text "t")) (text "to_array"))
    ≡ refused
unfolding run Run.value_method ethabi.Base.text_eq
no_array = refl

abbrev pub renamed : Event
renamed = record {
  name = text "moved_to";
  inputs = record { name = text "who"; kind = ParamType.address; indexed = true } ∷ [];
  anonymous = false;
}

renamed-IsNamedEvent : IsNamedEvent crates renamed
unfolding is_keyword ethabi.Base.text_eq
renamed-IsNamedEvent = ((refl, tt), refl, (refl, refl), refl, refl, refl)

from_event-recreated_example :
    (g : EventInterface) × (h : Event) × (from_event crates renamed ≡ ok g)
    × ((event_expr crates g >>= run_event) ≡ ok h)
    × (h.inputs ≡ renamed.inputs)
    × (Event.signature externs h
        ≡ long_signature externs (capital (text "moved_to")) (Event.param_types renamed))
from_event-recreated_example =
    from_event-recreated externs crates renamed (tt, tt) renamed-IsNamedEvent

abbrev send_tokens : Tokens
send_tokens = Token.cons codes_token (Token.cons grid_token Token.nil)

-- A name that is no identifier makes the generator panic.
digit_named :
    input_names crates
      (record { name = text "1"; kind = ParamType.bool; internal_type = none } ∷ [])
    ≡ panic
unfolding input_names ethabi.Base.text_eq
digit_named = refl

-- An argument named f is hidden by the local variable.
f_hidden :
    encode_with externs send (method (ident (text "f")) (text "into") ∷ []) ((text "f", codes) ∷ [])
    ≡ refused
unfolding encode_with run Run.value_method ethabi.Base.text_eq
f_hidden = refl

another_type : convert_topic_param_type ParamType.string ≢ ParamType.string
unfolding convert_topic_param_type
another_type h = absurd (cc)

topic_checked :
    type_check (Token.fixed_bytes (1 ∷ 2 ∷ [])) (convert_topic_param_type ParamType.string)
    ≡ ok true
unfolding convert_topic_param_type type_check
topic_checked = refl

from_token-topic_example :
    (c : Expr) × (from_token ParamType.string log_iter ≡ ok c)
    × (run (log_env (text "who") (Token.fixed_bytes (1 ∷ 2 ∷ [])) Run.nil) c ≡ panic)
from_token-topic_example =
    from_token-topic ParamType.string (text "who") (Token.fixed_bytes (1 ∷ 2 ∷ [])) Run.nil tt
      another_type topic_checked
