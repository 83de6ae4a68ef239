-- ===== src/Event.antt =====
-- ethabi/src/event.rs and ethabi/src/log.rs: filters for an event, and reading its logs.
pub mod RawLogs
pub mod Names
pub mod Lookup
pub mod Topics
pub mod Emitted
pub mod Matches
use ethabi.Base.{
  ℕ, ◌-◌, ◌==◌, Bool, true, false, if◌then◌else◌, Option, some, none, List, [], ◌∷◌, ◌++◌, map,
  length, drop, get_elem?, flatten, Bytes, Result, ok, panic, invalid_data, ◌>>=◌, ◌>>◌, guard,
  ok_or, map_ok, text_eq, BTreeMap, get, insert_all,
}
use ethabi.Externs.{Externs}
use ethabi.ParamType
use ethabi.ParamType.{ParamType, ParamTypes, nil, cons}
use ethabi.Token
use ethabi.Token.{Token, Tokens, type_check}
use ethabi.Encoder.{encode}
use ethabi.Decoder.{decode, decode_validate}
use ethabi.Signature.{long_signature}
use ethabi.Param.{EventParam}
use ethabi.Filter.{Topic, any, one_of, this, RawTopicFilter, TopicFilter}

pub record Event : Type 0 where
  pub name : Bytes
  pub inputs : List EventParam
  pub anonymous : Bool

pub record RawLog : Type 0 where
  pub topics : List Bytes
  pub log_data : Bytes

pub record LogParam : Type 0 where
  pub name : Bytes
  pub value : Token

pub record Log : Type 0 where
  pub params : List LogParam

-- `params.iter().map(|p| p.kind.clone()).collect()`
unfoldable pub event_kinds : List EventParam → ParamTypes
event_kinds [] = nil
event_kinds (p ∷ ps) = cons p.kind (event_kinds ps)

unfoldable pub names : List EventParam → List Bytes
names [] = []
names (p ∷ ps) = p.name ∷ names ps

unfoldable pub params_names : Event → List Bytes
unfolding names
params_names e = names e.inputs

unfoldable pub param_types : Event → ParamTypes
unfolding event_kinds
param_types e = event_kinds e.inputs

-- `inputs.iter().filter(|p| p.indexed == indexed)`
unfoldable pub select : Bool → List EventParam → List EventParam
select indexed [] = []
select true (p ∷ ps) = let rest = select true ps in if p.indexed then p ∷ rest else rest
select false (p ∷ ps) = let rest = select false ps in if p.indexed then rest else p ∷ rest

unfoldable pub indexed_params : Event → Bool → List EventParam
unfolding select
indexed_params e indexed = select indexed e.inputs

-- What an indexed parameter of the type is read as.
unfoldable pub convert_topic_param_type : ParamType → ParamType
convert_topic_param_type ParamType.string = ParamType.fixed_bytes 32
convert_topic_param_type ParamType.bytes = ParamType.fixed_bytes 32
convert_topic_param_type (ParamType.array p) = ParamType.fixed_bytes 32
convert_topic_param_type (ParamType.fixed_array p n) = ParamType.fixed_bytes 32
convert_topic_param_type (ParamType.tuple ps) = ParamType.fixed_bytes 32
convert_topic_param_type kind = kind

unfoldable pub topic_types : List EventParam → ParamTypes
unfolding convert_topic_param_type
topic_types [] = nil
topic_types (p ∷ ps) = cons (convert_topic_param_type p.kind) (topic_types ps)

-- `names.zip(tokens)`
unfoldable pub zip : List Bytes → Tokens → List (Bytes × Token)
zip [] ts = []
zip (n ∷ ns) Tokens.nil = []
zip (n ∷ ns) (Tokens.cons t ts) = (n, t) ∷ zip ns ts

-- `named_tokens[&name]` for each name: a name that is missing panics.
unfoldable pub look_up : BTreeMap Token → List Bytes → Result (List LogParam)
look_up m [] = ok []
look_up m (n ∷ ns) = do
  t ← elim (get m n) [ some t ↦ ok t | none ↦ panic ]
  rest ← look_up m ns
  ok (record { name = n; value = t } ∷ rest)

-- `kinds.get(i)`
unfoldable pub kind_at : List EventParam → ℕ → Option ParamType
kind_at ps i = elim (get_elem? ps i) [ some p ↦ some p.kind | none ↦ none ]

module _ (x : Externs) where
  unfoldable pub signature : Event → Bytes
  unfolding param_types
  signature e = long_signature x e.name (param_types e)

  -- An encoding of one word is the topic; any other is hashed.
  unfoldable pub convert_token : Token → ParamType → Result Bytes
  convert_token token kind = do
    fits ← type_check token kind
    guard fits invalid_data
    encoded ← encode x (Tokens.cons token Tokens.nil)
    ok (if length encoded == 32 then encoded else x.keccak256 encoded)

  unfoldable pub convert_tokens : List Token → ParamType → Result (List Bytes)
  unfolding convert_token
  convert_tokens [] kind = ok []
  convert_tokens (t ∷ ts) kind = do
    topic ← convert_token t kind
    topics ← convert_tokens ts kind
    ok (topic ∷ topics)

  unfoldable pub convert_topic : Topic Token → Option ParamType → Result (Topic Bytes)
  unfolding convert_tokens
  convert_topic any kind = ok any
  convert_topic (one_of tokens) kind = do
    kind ← ok_or kind invalid_data
    map_ok one_of (convert_tokens tokens kind)
  convert_topic (this token) kind = do
    kind ← ok_or kind invalid_data
    map_ok this (convert_token token kind)

  -- Three topics can be filtered by, and the first is the signature unless the event is anonymous.
  unfoldable pub filter : Event → RawTopicFilter → Result TopicFilter
  unfolding indexed_params convert_topic kind_at signature
  filter e raw = do
    let kinds = indexed_params e true
    first ← convert_topic raw.topic0 (kind_at kinds 0)
    second ← convert_topic raw.topic1 (kind_at kinds 1)
    third ← convert_topic raw.topic2 (kind_at kinds 2)
    ok (
        if e.anonymous
        then record { topic0 = first; topic1 = second; topic2 = third; topic3 = any }
        else record {
          topic0 = this (signature e);
          topic1 = first;
          topic2 = second;
          topic3 = third;
        })

  -- How many topics stand before the parameters: the signature, which is compared.
  unfoldable pub to_skip : Event → List Bytes → Result ℕ
  unfolding signature
  to_skip e topics =
      if e.anonymous
      then ok 0
      else (ok_or (get_elem? topics 0) invalid_data >>= λ topic.
          guard (text_eq topic (signature e)) invalid_data >> ok 1)

  unfoldable pub parse_log_inner :
      Event → RawLog → (ParamTypes → Bytes → Result Tokens) → Result Log
  unfolding indexed_params params_names to_skip topic_types event_kinds names zip look_up
  parse_log_inner e log decoder = do
    let topic_params = indexed_params e true
    let data_params = indexed_params e false
    skipped ← to_skip e log.topics
    topic_tokens ← decoder (topic_types topic_params) (flatten (drop skipped log.topics))
    guard (Token.count topic_tokens == length log.topics - skipped) invalid_data
    let topics_named = zip (names topic_params) topic_tokens
    data_tokens ← decoder (event_kinds data_params) log.log_data
    let data_named = zip (names data_params) data_tokens
    let named_tokens = insert_all (topics_named ++ data_named) []
    params ← look_up named_tokens (params_names e)
    ok (record { params = params })

  unfoldable pub parse_log : Event → RawLog → Result Log
  parse_log e log = parse_log_inner e log (decode x)

  unfoldable pub parse_log_validate : Event → RawLog → Result Log
  parse_log_validate e log = parse_log_inner e log (decode_validate x)
