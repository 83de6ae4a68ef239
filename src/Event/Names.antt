-- ===== src/Event/Names.antt =====
-- Reading a log does not panic, and names its values as the event does.
use ethabi.Base.{
  ℕ, suc, ◌-◌, ◌^◌, ◌<◌, ◌≡◌, refl, ap, sym, ◌∙◌, inl, inr, Bool, true, false, ◌||◌, ◌==◌, ==_iff,
  some, List, [], ◌∷◌, ◌++◌, map, length, drop, flatten, All, All-weaken, AreBytes, Bytes, Result,
  ok, invalid_data, guard, ok_or, ◌>>=◌, ◌>>◌, Ensures, holds, fails, Ensures-bind, BTreeMap, get,
  insert_all, has_key, has_key-append, get-insert_all, text_eq, text_eq_refl, Bool-cases, arith,
  get_elem?,
}
use ethabi.Externs.{Externs}
use ethabi.Word.Safety.{Ensures-guard}
use ethabi.ParamType
use ethabi.ParamType.{ParamType, ParamTypes}
use ethabi.Token
use ethabi.Token.{Token, Tokens, types_check, nil, cons}
use ethabi.Token.Checks.{types_check-count}
use ethabi.Decoder.{decode, decode_validate}
use ethabi.Decoder.Fits.{AreSmall}
use ethabi.Decoder.Safety.{decode-Ensures}
use ethabi.Param.{EventParam}
use ethabi.Event.{
  Event, RawLog, LogParam, event_kinds, names, params_names, param_types, select, indexed_params,
  topic_types, zip, look_up, signature, to_skip, parse_log_inner, parse_log, parse_log_validate,
}
use ethabi.Event.RawLogs.{
  IsRawLog, flatten-AreBytes, length-flatten, drop-topics, select-AreSmall, topic_types-AreSmall,
}

count-topic_types : (ps : List EventParam) → ParamType.count (topic_types ps) ≡ length (names ps)
unfolding topic_types names
count-topic_types [] = refl
count-topic_types (p ∷ ps) = ap suc (count-topic_types ps)

count-event_kinds : (ps : List EventParam) → ParamType.count (event_kinds ps) ≡ length (names ps)
unfolding event_kinds names
count-event_kinds [] = refl
count-event_kinds (p ∷ ps) = ap suc (count-event_kinds ps)

count-types_check :
    (ts : Tokens) (ps : ParamTypes)
    → types_check ts ps ≡ ok true
    → ParamType.count ps ≡ Token.count ts
count-types_check ts ps h = elim (Bool-cases (ParamType.count ps == Token.count ts)) [
  | inl e ↦ (==_iff (ParamType.count ps) (Token.count ts)).0 e
  | inr e ↦ let refused = types_check-count ts ps e in absurd (cc)
]

-- The names of the parameters are those of the indexed and of the other ones.
names-select :
    (P : Bytes → Type 0) (ps : List EventParam)
    → All P (names (select true ps))
    → All P (names (select false ps))
    → All P (names ps)
unfolding names select
names-select P [] h k = tt
names-select P (p ∷ ps) h k = elim (Bool-cases p.indexed) [
  | inl i ↦
      let h' : All P (p.name ∷ names (select true ps)) = (rw i at h) in
      let k' : All P (names (select false ps)) = (rw i at k) in (h'.0, names-select P ps h'.1 k')
  | inr i ↦
      let h' : All P (names (select true ps)) = (rw i at h) in
      let k' : All P (p.name ∷ names (select false ps)) = (rw i at k) in
      (k'.0, names-select P ps h' k'.1)
]

or_true : (b : Bool) → (b || true) ≡ true
or_true true = refl
or_true false = refl

has_key-zip :
    (ns : List Bytes) (ts : Tokens)
    → length ns ≡ Token.count ts
    → All (λ n. has_key (zip ns ts) n ≡ true) ns
unfolding zip
has_key-zip [] ts h = tt
has_key-zip (n ∷ ns) nil h = absurd (omega arith)
has_key-zip (n ∷ ns) (cons t ts) h = (
  rw (text_eq_refl n),
  All-weaken ns (has_key-zip ns ts (omega arith)) λ m k. rw k (or_true (text_eq m n)),
)

look_up-Ensures :
    (m : BTreeMap Token) (ns : List Bytes)
    → All (λ n. (t : Token) × (get m n ≡ some t)) ns
    → Ensures (λ ps. map (λ (p : LogParam). p.name) ps ≡ ns) (look_up m ns)
unfolding look_up
look_up-Ensures m [] h = holds refl
look_up-Ensures m (n ∷ ns) h =
    rw h.0.1 (Ensures-bind (look_up-Ensures m ns h.1) λ ps k. holds (ap (λ t. n ∷ t) k))

to_skip-Ensures :
    (x : Externs) (e : Event) (topics : List Bytes) → Ensures (λ _. Unit {0}) (to_skip x e topics)
unfolding to_skip
to_skip-Ensures x e topics = elim (Bool-cases e.anonymous) [
  | inl a ↦ rw a (holds tt)
  | inr a ↦ rw a (first topics)
]
  where
    first :
        (topics : List Bytes)
        → Ensures
            (λ (_ : ℕ). Unit {0})
            (ok_or (get_elem? topics 0) invalid_data >>= λ topic.
              guard (text_eq topic (signature x e)) invalid_data >> ok 1)
    first [] = fails
    first (t ∷ ts) =
        Ensures-bind (Ensures-guard (text_eq t (signature x e)) invalid_data) λ _ _. holds tt

-- A token for each name makes every look-up succeed.
look_up-select :
    (ps : List EventParam) (ts us : Tokens)
    → length (names (select true ps)) ≡ Token.count ts
    → length (names (select false ps)) ≡ Token.count us
    → Ensures
        (λ ls. map (λ (l : LogParam). l.name) ls ≡ names ps)
        (look_up
          (insert_all (zip (names (select true ps)) ts ++ zip (names (select false ps)) us) [])
          (names ps))
look_up-select ps ts us h k =
    let by_topic = zip (names (select true ps)) ts in
    let by_data = zip (names (select false ps)) us in
    let keyed : All (λ n. has_key (by_topic ++ by_data) n ≡ true) (names ps) =
      names-select _ ps
        (All-weaken (names (select true ps)) (has_key-zip (names (select true ps)) ts h)
          λ n f. rw (has_key-append by_topic by_data n, f))
        (All-weaken (names (select false ps)) (has_key-zip (names (select false ps)) us k)
          λ n f. rw (has_key-append by_topic by_data n, f) (or_true (has_key by_topic n))) in
    look_up-Ensures (insert_all (by_topic ++ by_data) []) (names ps)
      (All-weaken (names ps) keyed λ n f. get-insert_all (by_topic ++ by_data) [] n (inl f))

module _ (x : Externs) (e : Event) (log : RawLog) (raw : IsRawLog log)
    (small : AreSmall (param_types e)) where
  parse_log_inner-Ensures :
      (decoder : ParamTypes → Bytes → Result Tokens)
      → ((ps : ParamTypes) (bs : Bytes)
          → AreBytes bs
          → length bs < 2 ^ 62
          → AreSmall ps
          → Ensures (λ ts. types_check ts ps ≡ ok true) (decoder ps bs))
      → Ensures
          (λ l. map (λ (p : LogParam). p.name) l.params ≡ params_names e)
          (parse_log_inner x e log decoder)
  unfolding parse_log_inner param_types params_names indexed_params
  parse_log_inner-Ensures decoder reads =
      let indexed = select true e.inputs in
      let others = select false e.inputs in
      Ensures-bind (to_skip-Ensures x e log.topics) λ n _.
        let kept = drop-topics n log.topics raw.0 in
        let size = length-flatten (drop n log.topics) kept.0 in
        Ensures-bind
          (reads (topic_types indexed) (flatten (drop n log.topics))
            (flatten-AreBytes (drop n log.topics) kept.0) (omega arith)
            (topic_types-AreSmall indexed (select-AreSmall true e.inputs small)))
          λ ts checked.
            Ensures-bind (Ensures-guard (Token.count ts == length log.topics - n) invalid_data)
              λ _ _.
                Ensures-bind
                  (reads (event_kinds others) log.log_data raw.2 raw.3
                    (select-AreSmall false e.inputs small))
                  λ us checked'.
                    Ensures-bind
                      (look_up-select e.inputs ts us
                        (sym (count-topic_types indexed)
                          ∙ count-types_check ts (topic_types indexed) checked)
                        (sym (count-event_kinds others)
                          ∙ count-types_check us (event_kinds others) checked'))
                      λ ps k. holds k

-- On a log whose topics have 32 bytes each, with fewer than 2 ^ 56 topics and fewer than 2 ^ 62
-- bytes of data, and for an event whose `bytesN` sizes are below 2 ^ 62, neither `parse_log` nor
-- `parse_log_validate` panics, and the parameters they return are named as the event's inputs, in
-- their order.
pub parse_log-Ensures :
    (x : Externs) (e : Event) (log : RawLog)
    → IsRawLog log
    → AreSmall (param_types e)
    → Ensures (λ l. map (λ (p : LogParam). p.name) l.params ≡ params_names e) (parse_log x e log)
      × Ensures
          (λ l. map (λ (p : LogParam). p.name) l.params ≡ params_names e)
          (parse_log_validate x e log)
unfolding parse_log parse_log_validate
parse_log-Ensures x e log raw small = (
  parse_log_inner-Ensures x e log raw small (decode x)
      λ ps bs b l s. (decode-Ensures x ps bs b l s).0,
  parse_log_inner-Ensures x e log raw small (decode_validate x)
      λ ps bs b l s. (decode-Ensures x ps bs b l s).1,
)
