-- ===== src/Tests/Logs.antt =====
-- Events and their logs at sample values.
use ethabi.Base.{
  ℕ, suc, ◌^◌, ◌<◌, ◌≡◌, refl, Bool, true, false, not, ◌&&◌, ◌==◌, if◌then◌else◌, some, none, List,
  [], ◌∷◌, ◌++◌, map, get_elem?, length, replicate, flatten, Bytes, Result, ok, err, panic,
  invalid_data, ◌>>=◌, arith, text, Ensures,
}
use ethabi.Word.{pad_u32}
use ethabi.Utf8.{is_utf8}
use ethabi.ParamType
use ethabi.ParamType.{ParamType}
use ethabi.Token.{Token, Tokens, nil, cons, is_dynamic}
use ethabi.Encoder.Spec.{encoding, static_part, head_size}
use ethabi.Filter.{Topic, one_of, index, into_vec, map_topic, is_any, index-into_vec}
use ethabi.Event.{
  Event, RawLog, LogParam, Log, parse_log, parse_log_validate, params_names, param_types, filter,
  convert_token,
}
use ethabi.Event.Names.{parse_log-Ensures}
use ethabi.Event.Lookup.{named}
use ethabi.Event.Topics.{convert_token-HasType}
use ethabi.Event.Emitted.{seen, emitted, parse_log-emitted}
use ethabi.Event
use ethabi.Event.{convert_topic}
use ethabi.Filter.{this}
use ethabi.Event.Emitted.{topic_of}
use ethabi.Event.Matches.{convert_topic-topic_of}
use ethabi.Tests.Samples.{externs, externs-IsExterns}

-- event Sent(uint256 indexed id, string indexed note, bool done)
abbrev pub sent : Event
sent = record {
  name = text "Sent";
  inputs =
      record { name = text "id"; kind = ParamType.uint 256; indexed = true }
      ∷ record { name = text "note"; kind = ParamType.string; indexed = true }
      ∷ record { name = text "done"; kind = ParamType.bool; indexed = false }
      ∷ [];
  anonymous = false;
}

abbrev sent_tokens : Tokens
sent_tokens = cons (Token.uint 69) (cons (Token.string (text "hi")) (cons (Token.bool true) nil))

abbrev any_hash : Token → Bytes
any_hash t = replicate 32 7

parse_log-emitted_example :
    parse_log externs sent (emitted any_hash externs sent sent_tokens)
    ≡ ok (record { params = named (params_names sent) (seen any_hash sent.inputs sent_tokens) })
unfolding params_names param_types is_utf8 ethabi.Base.text_eq
parse_log-emitted_example =
    parse_log-emitted any_hash externs sent sent_tokens externs-IsExterns (λ t. refl)
      (omega arith, (refl, (tt, tt))) (tt, (tt, (tt, tt)))
      ((refl, (refl, tt)), ((refl, tt), (tt, tt))) (unfold flatten static_part in omega arith)
      (unfold encoding in omega arith)

parse_log-Ensures_example :
    Ensures
      (λ l. map (λ (p : LogParam). p.name) l.params ≡ params_names sent)
      (parse_log externs sent (record { topics = []; log_data = 1 ∷ [] }))
    × Ensures
        (λ l. map (λ (p : LogParam). p.name) l.params ≡ params_names sent)
        (parse_log_validate externs sent (record { topics = []; log_data = 1 ∷ [] }))
unfolding param_types
parse_log-Ensures_example =
    parse_log-Ensures externs sent (record { topics = []; log_data = 1 ∷ [] })
      (tt, omega arith, (omega arith, tt), omega arith) (tt, (tt, (tt, tt)))

-- A note is dynamic, and its topic the hash of its whole encoding.
convert_token-HasType_example :
    convert_token externs (Token.string (text "hi")) ParamType.string
    ≡ ok (
        if not (is_dynamic (Token.string (text "hi")))
          && (head_size (Token.string (text "hi")) == 32)
        then static_part externs (Token.string (text "hi"))
        else externs.keccak256 (encoding externs (cons (Token.string (text "hi")) nil)))
unfolding is_utf8
convert_token-HasType_example =
    convert_token-HasType externs (Token.string (text "hi")) ParamType.string externs-IsExterns refl
      tt (unfold encoding pad_u32 in omega arith)

abbrev two_topics : Topic ℕ
two_topics = one_of (3 ∷ 4 ∷ [])

index-into_vec_example :
    (index two_topics 1
      ≡ elim (get_elem? (into_vec two_topics) 1) [ some topic ↦ ok topic | none ↦ panic ])
    × (into_vec (map_topic suc two_topics) ≡ map suc (into_vec two_topics))
    × (is_any (map_topic suc two_topics) ≡ is_any two_topics)
index-into_vec_example = index-into_vec suc two_topics 1

convert_topic-topic_of_example :
    convert_topic externs (this (Token.uint 69)) (some (ParamType.uint 256))
    ≡ ok (this (topic_of any_hash externs (ParamType.uint 256) (Token.uint 69)))
unfolding ethabi.Event.convert_topic_param_type
convert_topic-topic_of_example =
    convert_topic-topic_of any_hash externs (Token.uint 69) (ParamType.uint 256) externs-IsExterns
      (λ t. refl) (omega arith) tt refl

-- Two parameters without a name: the log names both, with the value of the second.
abbrev unnamed : Event
unnamed = record {
  name = text "Pair";
  inputs =
      record { name = []; kind = ParamType.bool; indexed = false }
      ∷ record { name = []; kind = ParamType.bool; indexed = false }
      ∷ [];
  anonymous = true;
}

same_names :
    parse_log externs unnamed (record { topics = []; log_data = pad_u32 1 ++ pad_u32 0 })
    ≡ ok (record {
      params =
          record { name = []; value = Token.bool false }
          ∷ record { name = []; value = Token.bool false }
          ∷ [];
    })
unfolding parse_log ethabi.Event.parse_log_inner ethabi.Decoder.decode ParamType.all_empty_valid
    pad_u32 ethabi.Word.peek_32_bytes ethabi.Word.as_bool ethabi.Base.text_eq
same_names = refl
