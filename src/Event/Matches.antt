-- ===== src/Event/Matches.antt =====
-- A filter made for a value (`convert_topic` in ethabi/src/event.rs), and the topic that a contract
-- emits for that value.
use ethabi.Base.{◌^◌, ◌<◌, ◌≡◌, refl, false, some, length, Bytes, ok, arith}
use ethabi.Externs.{Externs, IsExterns}
use ethabi.ParamType.{ParamType}
use ethabi.Token.{Token, nil, cons, is_dynamic}
use ethabi.Token.Typing.{IsToken, HasType}
use ethabi.Encoder.Spec.{head_size, static_part, encoding}
use ethabi.Encoder.Sizes.{length-static_part}
use ethabi.Filter.{this}
use ethabi.Event.{convert_topic, convert_topic_param_type}
use ethabi.Event.Topics.{convert_token-HasType, encoding-static}
use ethabi.Event.Emitted.{topic_of, topic-facts, seen_topic}

module _ (hash : Token → Bytes) (x : Externs) (t : Token) (p : ParamType) where
  -- A value type is seen as it is.
  seen-value : convert_topic_param_type p ≡ p → seen_topic hash p t ≡ t
  unfolding convert_topic_param_type
  seen-value = go p
    where
      go : (p : ParamType) → convert_topic_param_type p ≡ p → seen_topic hash p t ≡ t
      go ParamType.string h = cc
      go ParamType.bytes h = cc
      go (ParamType.array p) h = cc
      go (ParamType.fixed_array p n) h = cc
      go (ParamType.tuple ps) h = cc
      go ParamType.address h = refl
      go ParamType.bool h = refl
      go (ParamType.int n) h = refl
      go (ParamType.uint n) h = refl
      go (ParamType.fixed_bytes n) h = refl

-- For an indexed parameter of a value type, which is read from its topic as that type, a filter for a
-- value of the type asks for exactly the topic under which a contract emits the value.
pub convert_topic-topic_of :
    (hash : Token → Bytes) (x : Externs) (t : Token) (p : ParamType)
    → IsExterns x
    → ((t : Token) → length (hash t) ≡ 32)
    → IsToken t
    → HasType t p
    → convert_topic_param_type p ≡ p
    → convert_topic x (this t) (some p) ≡ ok (this (topic_of hash x p t))
unfolding convert_topic
convert_topic-topic_of hash x t p ext hashes w h value =
    let facts = topic-facts hash x ext hashes p t w h in
    let seen = seen-value hash x t p value in
    let static : is_dynamic t ≡ false = (rw seen at facts.2) in
    let part : static_part x t ≡ topic_of hash x p t = (rw seen at facts.3) in
    let word : head_size t ≡ 32 = (rw seen at facts.4) in
    let whole = encoding-static x ext t p w h static in
    let fits : length (encoding x (cons t nil)) < 2 ^ 32 =
      rw whole (omega (arith, length-static_part x ext t w static, word)) in
    rw (convert_token-HasType x t p ext w h fits, static, word, part)
