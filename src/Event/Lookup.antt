-- ===== src/Event/Lookup.antt =====
-- The map of named tokens that reading a log fills and reads (`named_tokens` in
-- ethabi/src/event.rs), where the names are distinct.
use ethabi.Base.{
  length, ◌≡◌, refl, inl, inr, Bool, true, false, some, List, [], ◌∷◌, ◌++◌, All, Bytes, ok,
  BTreeMap, get, insert, insert_all, get-insert, get-insert_all_other, insert_all-append, text_eq,
  text_eq_refl, text_eq_sound, Bool-cases, if◌then◌else◌, arith,
}
use ethabi.Token
use ethabi.Token.{Token, Tokens, nil, cons}
use ethabi.Param.{EventParam}
use ethabi.Event.{LogParam, names, select, zip, look_up}

abbrev pub Distinct : List Bytes → Type 0
Distinct [] = Unit {0}
Distinct (n ∷ ns) = All (λ m. text_eq n m ≡ false) ns × Distinct ns

-- The tokens of the parameters that `select` keeps.
abbrev pub select_tokens : Bool → List EventParam → Tokens → Tokens
select_tokens b [] ts = nil
select_tokens b (p ∷ ps) nil = nil
select_tokens true (p ∷ ps) (cons t ts) =
    let rest = select_tokens true ps ts in if p.indexed then cons t rest else rest
select_tokens false (p ∷ ps) (cons t ts) =
    let rest = select_tokens false ps ts in if p.indexed then rest else cons t rest

abbrev pub named : List Bytes → Tokens → List LogParam
named [] ts = []
named (n ∷ ns) nil = []
named (n ∷ ns) (cons t ts) = record { name = n; value = t } ∷ named ns ts

text_eq_sym : (s t : Bytes) → text_eq s t ≡ false → text_eq t s ≡ false
text_eq_sym s t h = elim (Bool-cases (text_eq t s)) [
  | inl e ↦
      let same = text_eq_sound t s e in
      let again = text_eq_refl s in
      let differs : text_eq s s ≡ false = (rw same at h) in absurd (cc)
  | inr e ↦ e
]

names-select-All :
    (P : Bytes → Type 0) (b : Bool) (ps : List EventParam)
    → All P (names ps)
    → All P (names (select b ps))
unfolding names select
names-select-All P b [] h = tt
names-select-All P true (p ∷ ps) h = elim (Bool-cases p.indexed) [
  | inl i ↦ rw i (h.0, names-select-All P true ps h.1)
  | inr i ↦ rw i (names-select-All P true ps h.1)
]
names-select-All P false (p ∷ ps) h = elim (Bool-cases p.indexed) [
  | inl i ↦ rw i (names-select-All P false ps h.1)
  | inr i ↦ rw i (h.0, names-select-All P false ps h.1)
]

select-Distinct :
    (b : Bool) (ps : List EventParam) → Distinct (names ps) → Distinct (names (select b ps))
unfolding names select
select-Distinct b [] h = tt
select-Distinct true (p ∷ ps) h = elim (Bool-cases p.indexed) [
  | inl i ↦ rw i (names-select-All _ true ps h.0, select-Distinct true ps h.1)
  | inr i ↦ rw i (select-Distinct true ps h.1)
]
select-Distinct false (p ∷ ps) h = elim (Bool-cases p.indexed) [
  | inl i ↦ rw i (select-Distinct false ps h.1)
  | inr i ↦ rw i (names-select-All _ false ps h.0, select-Distinct false ps h.1)
]

-- No name of an indexed parameter is one of another parameter.
select-apart :
    (ps : List EventParam)
    → Distinct (names ps)
    → All (λ n. All (λ m. text_eq n m ≡ false) (names (select false ps))) (names (select true ps))
unfolding names select
select-apart [] h = tt
select-apart (p ∷ ps) h = elim (Bool-cases p.indexed) [
  | inl i ↦ rw i (names-select-All _ false ps h.0, select-apart ps h.1)
  | inr i ↦
      rw i (both (names (select true ps)) (names-select-All _ true ps h.0) (select-apart ps h.1))
]
  where
    both :
        (ns : List Bytes)
        → All (λ m. text_eq p.name m ≡ false) ns
        → All (λ n. All (λ m. text_eq n m ≡ false) (names (select false ps))) ns
        → All
            (λ n.
              (text_eq n p.name ≡ false) × All (λ m. text_eq n m ≡ false) (names (select false ps)))
            ns
    both [] a b = tt
    both (n ∷ ns) a b = ((text_eq_sym p.name n a.0, b.0), both ns a.1 b.1)

zip-All :
    (P : Bytes → Type 0) (ns : List Bytes) (ts : Tokens) → All P ns → All (λ nt. P nt.0) (zip ns ts)
unfolding zip
zip-All P [] ts h = tt
zip-All P (n ∷ ns) nil h = tt
zip-All P (n ∷ ns) (cons t ts) h = (h.0, zip-All P ns ts h.1)

-- Distinct keys keep their values.
get-zip :
    (ns : List Bytes) (ts : Tokens) (m : BTreeMap Token)
    → Distinct ns
    → All (λ nt. get (insert_all (zip ns ts) m) nt.0 ≡ some nt.1) (zip ns ts)
unfolding zip
get-zip [] ts m h = tt
get-zip (n ∷ ns) nil m h = tt
get-zip (n ∷ ns) (cons t ts) m h = (
  rw (
    get-insert_all_other (zip ns ts) (insert n t m) n
        (zip-All (λ k. text_eq n k ≡ false) ns ts h.0),
    get-insert n n t m,
    text_eq_refl n,
  ),
  get-zip ns ts (insert n t m) h.1,
)

zip-select :
    (P : Bytes × Token → Type 0) (ps : List EventParam) (vs : Tokens)
    → All P (zip (names (select true ps)) (select_tokens true ps vs))
    → All P (zip (names (select false ps)) (select_tokens false ps vs))
    → All P (zip (names ps) vs)
unfolding zip names select
zip-select P [] vs h k = tt
zip-select P (p ∷ ps) nil h k = tt
zip-select P (p ∷ ps) (cons v vs) h k = elim (Bool-cases p.indexed) [
  | inl i ↦
      let h' : P (p.name, v) × All P (zip (names (select true ps)) (select_tokens true ps vs)) =
        (rw i at h) in
      (h'.0, zip-select P ps vs h'.1 (rw i at k))
  | inr i ↦
      let k' : P (p.name, v) × All P (zip (names (select false ps)) (select_tokens false ps vs)) =
        (rw i at k) in
      (k'.0, zip-select P ps vs (rw i at h) k'.1)
]

look_up-zip :
    (m : BTreeMap Token) (ns : List Bytes) (vs : Tokens)
    → length ns ≡ Token.count vs
    → All (λ nt. get m nt.0 ≡ some nt.1) (zip ns vs)
    → look_up m ns ≡ ok (named ns vs)
unfolding look_up zip
look_up-zip m [] vs l h = refl
look_up-zip m (n ∷ ns) nil l h = absurd (omega arith)
look_up-zip m (n ∷ ns) (cons v vs) l h = rw (h.0, look_up-zip m ns vs (omega arith) h.1)

-- With distinct names, each parameter is given its own token.
pub look_up-named :
    (ps : List EventParam) (vs : Tokens)
    → Distinct (names ps)
    → length (names ps) ≡ Token.count vs
    → look_up
        (insert_all
          (zip (names (select true ps)) (select_tokens true ps vs)
            ++ zip (names (select false ps)) (select_tokens false ps vs))
          [])
        (names ps)
      ≡ ok (named (names ps) vs)
look_up-named ps vs d l =
    let by_topic = zip (names (select true ps)) (select_tokens true ps vs) in
    let by_data = zip (names (select false ps)) (select_tokens false ps vs) in
    let early : All (λ nt. get (insert_all by_data (insert_all by_topic [])) nt.0 ≡ some nt.1)
        by_topic =
      kept by_topic
        (zip-All _ (names (select true ps)) (select_tokens true ps vs) (select-apart ps d))
        (get-zip (names (select true ps)) (select_tokens true ps vs) []
          (select-Distinct true ps d)) in
    let late =
      get-zip (names (select false ps)) (select_tokens false ps vs) (insert_all by_topic [])
        (select-Distinct false ps d) in
    rw (insert_all-append by_topic by_data []) (
      look_up-zip (insert_all by_data (insert_all by_topic [])) (names ps) vs l
        (zip-select _ ps vs early late))
  where
    kept :
        (kvs : List (Bytes × Token))
        → All (λ nt. All (λ m. text_eq nt.0 m ≡ false) (names (select false ps))) kvs
        → All
            (λ nt.
              get (insert_all (zip (names (select true ps)) (select_tokens true ps vs)) []) nt.0
              ≡ some nt.1)
            kvs
        → All
            (λ nt.
              get
                (insert_all
                  (zip (names (select false ps)) (select_tokens false ps vs))
                  (insert_all (zip (names (select true ps)) (select_tokens true ps vs)) []))
                nt.0
              ≡ some nt.1)
            kvs
    kept [] a b = tt
    kept ((n, t) ∷ kvs) a b = (
      rw
          (get-insert_all_other (zip (names (select false ps)) (select_tokens false ps vs))
            (insert_all (zip (names (select true ps)) (select_tokens true ps vs)) []) n
            (zip-All (λ k. text_eq n k ≡ false) (names (select false ps))
              (select_tokens false ps vs) a.0))
          b.0,
      kept kvs a.1 b.1,
    )
