-- ===== src/Event/RawLogs.antt =====
-- The topics and the data of a log of ethabi/src/event.rs, and their sizes.
use ethabi.Base.{
  ℕ, zero, suc, ◌*◌, ◌^◌, ◌<◌, ◌≤◌, ◌≡◌, refl, inl, inr, Bool, true, false, List, [], ◌∷◌, length,
  drop, flatten, All, All-append, AreBytes, Bytes, Bool-cases, arith, length-append_bytes,
}
use ethabi.ParamType.{ParamType}
use ethabi.Decoder.Fits.{IsSmall, AreSmall}
use ethabi.Param.{EventParam}
use ethabi.Event.{RawLog, event_kinds, select, convert_topic_param_type, topic_types}

-- A `Hash` has 32 bytes.
abbrev pub AreTopics : List Bytes → Type 0
AreTopics topics = All (λ t. AreBytes t × (length t ≡ 32)) topics

-- What the types of a `RawLog` give, and the sizes of a memory.
abbrev pub IsRawLog : RawLog → Type 0
IsRawLog log =
    AreTopics log.topics
    × (length log.topics < 2 ^ 56)
    × AreBytes log.log_data
    × (length log.log_data < 2 ^ 62)

pub flatten-AreBytes : (topics : List Bytes) → AreTopics topics → AreBytes (flatten topics)
unfolding flatten
flatten-AreBytes [] h = tt
flatten-AreBytes (t ∷ ts) h =
    All-append (λ b. b < 256) t (flatten ts) h.0.0 (flatten-AreBytes ts h.1)

pub length-flatten :
    (topics : List Bytes) → AreTopics topics → length (flatten topics) ≡ 32 * length topics
unfolding flatten
length-flatten [] h = refl
length-flatten (t ∷ ts) h =
    omega (arith, length-append_bytes t (flatten ts), h.0.1, length-flatten ts h.1)

pub drop-topics :
    (n : ℕ) (topics : List Bytes)
    → AreTopics topics
    → AreTopics (drop n topics) × (length (drop n topics) ≤ length topics)
drop-topics zero ts h = (h, omega arith)
drop-topics (suc n) [] h = (tt, omega arith)
drop-topics (suc n) (t ∷ ts) h = let rest = drop-topics n ts h.1 in (rest.0, omega arith)

pub select-AreSmall :
    (b : Bool) (ps : List EventParam)
    → AreSmall (event_kinds ps)
    → AreSmall (event_kinds (select b ps))
unfolding event_kinds select
select-AreSmall b [] h = tt
select-AreSmall true (p ∷ ps) h = elim (Bool-cases p.indexed) [
  | inl i ↦ rw i (h.0, select-AreSmall true ps h.1)
  | inr i ↦ rw i (select-AreSmall true ps h.1)
]
select-AreSmall false (p ∷ ps) h = elim (Bool-cases p.indexed) [
  | inl i ↦ rw i (select-AreSmall false ps h.1)
  | inr i ↦ rw i (h.0, select-AreSmall false ps h.1)
]

convert-IsSmall : (p : ParamType) → IsSmall p → IsSmall (convert_topic_param_type p)
unfolding convert_topic_param_type
convert-IsSmall ParamType.string h = omega arith
convert-IsSmall ParamType.bytes h = omega arith
convert-IsSmall (ParamType.array p) h = omega arith
convert-IsSmall (ParamType.fixed_array p n) h = omega arith
convert-IsSmall (ParamType.tuple ps) h = omega arith
convert-IsSmall (ParamType.fixed_bytes n) h = h
convert-IsSmall ParamType.address h = h
convert-IsSmall ParamType.bool h = h
convert-IsSmall (ParamType.int n) h = h
convert-IsSmall (ParamType.uint n) h = h

pub topic_types-AreSmall :
    (ps : List EventParam) → AreSmall (event_kinds ps) → AreSmall (topic_types ps)
unfolding event_kinds topic_types
topic_types-AreSmall [] h = tt
topic_types-AreSmall (p ∷ ps) h = (convert-IsSmall p.kind h.0, topic_types-AreSmall ps h.1)
