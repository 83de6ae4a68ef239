-- ===== src/Event/Emitted.antt =====
-- The log that a contract emits for an event, as the ABI specification describes it, and reading
-- it back.
use ethabi.Base.{
  ℕ, suc, ◌-◌, ◌^◌, ◌<◌, ◌≡◌, refl, ap, sym, inl, inr, true, false, ==_refl, if◌then◌else◌, List,
  [], ◌∷◌, Bytes, Result, ok, ◌>>=◌, length, drop, flatten, append-nil, text_eq_refl, Bool-cases,
  arith,
}
use ethabi.Externs.{Externs, IsExterns}
use ethabi.Word.Segments.{padded}
use ethabi.ParamType.{ParamType}
use ethabi.Token
use ethabi.Token.{Token, Tokens, nil, cons, is_dynamic, any_dynamic}
use ethabi.Token.Typing.{IsToken, AreTokens, HasType, HaveTypes}
use ethabi.Encoder.Spec.{head_size, heads_size, static_part, head, heads, tails, encoding}
use ethabi.Encoder.Sizes.{tails-static}
use ethabi.Decoder.{decode}
use ethabi.RoundTrip.{decode-encoding}
use ethabi.Param.{EventParam}
use ethabi.Event.{
  Event, RawLog, Log, event_kinds, names, params_names, param_types, select, indexed_params,
  convert_topic_param_type, topic_types, signature, to_skip, parse_log_inner, parse_log,
}
use ethabi.Event.Lookup.{Distinct, select_tokens, named, look_up-named}

module _ (hash : Token → Bytes) where
  -- What a reader of the log can see of the value of an indexed parameter: a value type's value,
  -- and of any other type the hash alone.
  abbrev pub seen_topic : ParamType → Token → Token
  seen_topic ParamType.string t = Token.fixed_bytes (hash t)
  seen_topic ParamType.bytes t = Token.fixed_bytes (hash t)
  seen_topic (ParamType.array p) t = Token.fixed_bytes (hash t)
  seen_topic (ParamType.fixed_array p n) t = Token.fixed_bytes (hash t)
  seen_topic (ParamType.tuple ps) t = Token.fixed_bytes (hash t)
  seen_topic kind t = t

  abbrev pub seen : List EventParam → Tokens → Tokens
  seen [] ts = nil
  seen (p ∷ ps) nil = nil
  seen (p ∷ ps) (cons t ts) = cons (if p.indexed then seen_topic p.kind t else t) (seen ps ts)

  module _ (x : Externs) where
    -- The topic of an indexed parameter: a value type's one word, or the hash.
    abbrev pub topic_of : ParamType → Token → Bytes
    topic_of ParamType.string t = hash t
    topic_of ParamType.bytes t = hash t
    topic_of (ParamType.array p) t = hash t
    topic_of (ParamType.fixed_array p n) t = hash t
    topic_of (ParamType.tuple ps) t = hash t
    topic_of kind t = static_part x t

    abbrev pub topics_of : List EventParam → Tokens → List Bytes
    topics_of [] ts = []
    topics_of (p ∷ ps) nil = []
    topics_of (p ∷ ps) (cons t ts) =
        let rest = topics_of ps ts in if p.indexed then topic_of p.kind t ∷ rest else rest

    -- The signature stands in front unless the event is anonymous, and the other parameters are
    -- encoded together.
    abbrev pub emitted : Event → Tokens → RawLog
    emitted e ts = record {
      topics = if e.anonymous then topics_of e.inputs ts else signature x e ∷ topics_of e.inputs ts;
      log_data = encoding x (select_tokens false e.inputs ts);
    }

module _ (hash : Token → Bytes) (x : Externs) (ext : IsExterns x)
    (hashes : (t : Token) → length (hash t) ≡ 32) where
  padded-hash : (t : Token) → padded (hash t) ≡ hash t
  padded-hash t = rw (hashes t) (append-nil (hash t))

  -- A topic is the encoding of what is seen of it, which is static, one word long, and of the type
  -- it is read at.
  pub topic-facts :
      (p : ParamType) (t : Token)
      → IsToken t
      → HasType t p
      → IsToken (seen_topic hash p t)
        × HasType (seen_topic hash p t) (convert_topic_param_type p)
        × (is_dynamic (seen_topic hash p t) ≡ false)
        × (static_part x (seen_topic hash p t) ≡ topic_of hash x p t)
        × (head_size (seen_topic hash p t) ≡ 32)
  unfolding static_part head_size is_dynamic convert_topic_param_type
  topic-facts ParamType.string t w h =
      (tt, (hashes t, omega arith, omega arith), refl, padded-hash t, omega (arith, hashes t))
  topic-facts ParamType.bytes t w h =
      (tt, (hashes t, omega arith, omega arith), refl, padded-hash t, omega (arith, hashes t))
  topic-facts (ParamType.array p) t w h =
      (tt, (hashes t, omega arith, omega arith), refl, padded-hash t, omega (arith, hashes t))
  topic-facts (ParamType.fixed_array p n) t w h =
      (tt, (hashes t, omega arith, omega arith), refl, padded-hash t, omega (arith, hashes t))
  topic-facts (ParamType.tuple ps) t w h =
      (tt, (hashes t, omega arith, omega arith), refl, padded-hash t, omega (arith, hashes t))
  topic-facts ParamType.address (Token.address a) w h = (w, h, refl, refl, refl)
  topic-facts ParamType.bool (Token.bool b) w h = (w, h, refl, refl, refl)
  topic-facts (ParamType.int n) (Token.int v) w h = (w, h, refl, refl, refl)
  topic-facts (ParamType.uint n) (Token.uint v) w h = (w, h, refl, refl, refl)
  topic-facts (ParamType.fixed_bytes n) (Token.fixed_bytes bs) w h =
      (w, h, refl, refl, omega (arith, h.0, h.1, h.2))
  topic-facts _ _ w h = absurd h

  -- The same of all topics of a log.
  topics-facts :
      (ps : List EventParam) (ts : Tokens)
      → AreTokens ts
      → HaveTypes ts (event_kinds ps)
      → AreTokens (select_tokens true ps (seen hash ps ts))
        × HaveTypes (select_tokens true ps (seen hash ps ts)) (topic_types (select true ps))
        × (any_dynamic (select_tokens true ps (seen hash ps ts)) ≡ false)
        × ((offset : ℕ)
            → heads x (select_tokens true ps (seen hash ps ts)) offset
              ≡ flatten (topics_of hash x ps ts))
        × (Token.count (select_tokens true ps (seen hash ps ts)) ≡ length (topics_of hash x ps ts))
  unfolding event_kinds select topic_types is_dynamic flatten tails head
  topics-facts [] ts w h = (tt, tt, refl, (λ _. refl), refl)
  topics-facts (p ∷ ps) nil w h = absurd h
  topics-facts (p ∷ ps) (cons t ts) w h =
      let rest = topics-facts ps ts w.1 h.1 in
      elim (Bool-cases p.indexed) [
        | inl i ↦
            let one = topic-facts p.kind t w.0 h.0 in
            rw i (
              (one.0, rest.0),
              (one.1, rest.1),
              rw (one.2) rest.2,
              (λ offset. rw (one.2, one.3, rest.3 _)),
              ap suc rest.4,
            )
        | inr i ↦ rw i rest
      ]

others-facts :
    (hash : Token → Bytes) (ps : List EventParam) (ts : Tokens)
    → AreTokens ts
    → HaveTypes ts (event_kinds ps)
    → AreTokens (select_tokens false ps ts)
      × HaveTypes (select_tokens false ps ts) (event_kinds (select false ps))
      × (select_tokens false ps (seen hash ps ts) ≡ select_tokens false ps ts)
      × (length (names ps) ≡ Token.count (seen hash ps ts))
unfolding event_kinds select names
others-facts hash [] ts w h = (tt, tt, refl, refl)
others-facts hash (p ∷ ps) nil w h = absurd h
others-facts hash (p ∷ ps) (cons t ts) w h =
    let rest = others-facts hash ps ts w.1 h.1 in
    elim (Bool-cases p.indexed) [
      | inl i ↦ rw i (rest.0, rest.1, rest.2, ap suc rest.3)
      | inr i ↦ rw i ((w.0, rest.0), (h.0, rest.1), ap (λ us. cons t us) rest.2, ap suc rest.3)
    ]

module _ (hash : Token → Bytes) (x : Externs) (ext : IsExterns x)
    (hashes : (t : Token) → length (hash t) ≡ 32) (e : Event) (ts : Tokens) (w : AreTokens ts)
    (h : HaveTypes ts (param_types e)) where
  decode-topics :
      length (flatten (topics_of hash x e.inputs ts)) < 2 ^ 32
      → decode x (topic_types (select true e.inputs)) (flatten (topics_of hash x e.inputs ts))
        ≡ ok (select_tokens true e.inputs (seen hash e.inputs ts))
  unfolding param_types encoding
  decode-topics fits =
      let vs = select_tokens true e.inputs (seen hash e.inputs ts) in
      let facts = topics-facts hash x ext hashes e.inputs ts w h in
      let written : encoding x vs ≡ flatten (topics_of hash x e.inputs ts) =
        rw (tails-static x vs facts.2, facts.3 (heads_size vs))
          (append-nil (flatten (topics_of hash x e.inputs ts))) in
      let read =
        decode-encoding x ext vs (topic_types (select true e.inputs)) facts.0 facts.1
          (rw written fits) in
      rw written at read

  -- What `to_skip` leaves of the topics.
  to_skip-emitted :
      (k : ℕ → Result Log) (r : Result Log)
      → ((n : ℕ)
          → drop n (emitted hash x e ts).topics ≡ topics_of hash x e.inputs ts
          → (length (emitted hash x e ts).topics - n ≡ length (topics_of hash x e.inputs ts))
          → k n ≡ r)
      → (to_skip x e (emitted hash x e ts).topics >>= k) ≡ r
  unfolding to_skip
  to_skip-emitted k r rest = elim (Bool-cases e.anonymous) [
    | inl a ↦ rw a (rest 0 (rw a) (rw a (omega arith)))
    | inr a ↦ rw (a, text_eq_refl (signature x e)) (rest 1 (rw a) (rw a (omega arith)))
  ]

-- The log that a contract emits for an event with distinct parameter names, whose indexed value
-- types stand in the topics, other indexed types as a hash of 32 bytes, and other parameters
-- encoded in the data, is read by `parse_log` into the parameters in their declared order: each
-- with its value, or with the hash where that is all the log has. The event's tokens are of its
-- types, and topics and data are each shorter than 2 ^ 32 bytes.
pub parse_log-emitted :
    (hash : Token → Bytes) (x : Externs) (e : Event) (ts : Tokens)
    → IsExterns x
    → ((t : Token) → length (hash t) ≡ 32)
    → AreTokens ts
    → HaveTypes ts (param_types e)
    → Distinct (params_names e)
    → length (flatten (topics_of hash x e.inputs ts)) < 2 ^ 32
    → length (encoding x (select_tokens false e.inputs ts)) < 2 ^ 32
    → parse_log x e (emitted hash x e ts)
      ≡ ok (record { params = named (params_names e) (seen hash e.inputs ts) })
unfolding parse_log parse_log_inner params_names param_types indexed_params
parse_log-emitted hash x e ts ext hashes w h d short_topics short_data =
    let vs = seen hash e.inputs ts in
    let others = others-facts hash e.inputs ts w h in
    let facts = topics-facts hash x ext hashes e.inputs ts w h in
    to_skip-emitted hash x ext hashes e ts w h _ _ λ n left number. rw (
      left,
      decode-topics hash x ext hashes e ts w h short_topics,
      facts.4,
      number,
      ==_refl (length (topics_of hash x e.inputs ts)),
      decode-encoding x ext (select_tokens false e.inputs ts) (event_kinds (select false e.inputs))
          others.0 others.1 short_data,
      sym others.2,
      look_up-named e.inputs vs d others.3,
    )
