-- ===== src/ParamType/Reader/Rounds.antt =====
-- The rounds that `Reader::read` (ethabi/src/param_type/reader.rs) is given are enough.
use ethabi.Base.{
  ℕ, zero, suc, ◌+◌, ◌-◌, ◌≤◌, ◌<◌, ◌≡◌, refl, ◌∙◌, inl, inr, true, ◌||◌, ◌==◌, ltb, leb,
  if◌then◌else◌, [], ◌∷◌, length, Bytes, Result, ok, err, panic, ◌>>=◌, Bool-cases, arith, ok_or,
  parse_usize, parse_int,
}
use ethabi.ParamType.{ParamType}
use ethabi.Tokenizer.{count_chars, str_slice, ends_with}
use ethabi.ParamType.Reader.{
  ReadScan, read_scan, trailing, opens, ends_inner, closes, separates, read_step, read_loop,
  read_tuple, front, number_part, read_array, read_word, read_within, read,
}
use ethabi.ParamType.Reader.Cuts.{OkThen, bind-agree, length-str_slice}
use ethabi.ParamType.Reader.Kept.{Inv, opens-Inv, closes-Inv, separates-Inv}

-- Two readers that agree on whatever is shorter than the name.
module _ (r r' : Bytes → Result ParamType) (name : Bytes)
    (agree : (sub : Bytes) → length sub < length name → r sub ≡ r' sub) where
  slice-agree :
      {T : Type 0} (from to : ℕ) (f : Bytes → ParamType → Result T)
      → 1 ≤ length name
      → 1 ≤ from
      → (str_slice name from to >>= λ sub. r sub >>= f sub)
        ≡ (str_slice name from to >>= λ sub. r' sub >>= f sub)
  slice-agree from to f some late =
      bind-agree (λ sub. (length sub ≤ length name - from) × (length sub ≤ to - from))
        (str_slice name from to) _ _ (length-str_slice name from to)
        λ sub short. rw (agree sub (omega arith))

  ends_inner-agree :
      (s : ReadScan) (nested pos more : ℕ)
      → 1 ≤ length name
      → 1 ≤ s.top_level_paren_open
      → ends_inner r name s nested pos more ≡ ends_inner r' name s nested pos more
  unfolding ends_inner
  ends_inner-agree s nested pos more some late =
      slice-agree s.top_level_paren_open (pos + more + 1) _ some late

  closes-agree :
      (s : ReadScan) (pos : ℕ) (rest : Bytes)
      → 1 ≤ length name
      → Inv pos s
      → closes r name s pos rest ≡ closes r' name s pos rest
  unfolding closes
  closes-agree s pos rest some inv = elim (Bool-cases (s.nested == 0)) [
    | inl z ↦ rw z
    | inr z ↦ rw z (
        bind-agree
          (λ sub. (length sub ≤ length name - s.last_item) × (length sub ≤ pos - s.last_item))
          (str_slice name s.last_item pos) _ _ (length-str_slice name s.last_item pos)
          λ sub short. elim (Bool-cases (length sub == 0)) [
            | inl e ↦ rw e
            | inr e ↦ elim (Bool-cases (s.nested == 1)) [
              | inl o ↦ rw (e, o, agree sub (omega arith))
              | inr o ↦
                  rw (e, o)
                    (ends_inner-agree s (s.nested - 1) pos (trailing rest) some
                      (inv.2 (ground arith)))
            ]
          ])
  ]

  separates-agree :
      (s : ReadScan) (pos : ℕ)
      → 1 ≤ length name
      → Inv pos s
      → separates r name s pos ≡ separates r' name s pos
  unfolding separates
  separates-agree s pos some inv =
      bind-agree
        (λ sub. (length sub ≤ length name - s.last_item) × (length sub ≤ pos - s.last_item))
        (str_slice name s.last_item pos) _ _ (length-str_slice name s.last_item pos)
        λ sub short. rw (agree sub (omega arith))

  read_step-agree :
      (s : ReadScan) (pos c : ℕ) (rest : Bytes)
      → 1 ≤ length name
      → Inv pos s
      → (read_step r name s pos c rest ≡ read_step r' name s pos c rest)
        × OkThen (Inv (pos + 1)) (read_step r' name s pos c rest)
  unfolding read_step
  read_step-agree s pos c rest some inv = elim (Bool-cases (c == b'(')) [
    | inl e ↦ rw e (opens_same, opens-Inv r' name s pos inv)
    | inr e ↦ elim (Bool-cases (c == b')')) [
      | inl f ↦ rw (e, f) (closes-agree s pos rest some inv, closes-Inv r' name s pos rest inv)
      | inr f ↦ elim (Bool-cases (c == b',')) [
        | inl g ↦ rw (e, f, g) (separates-agree s pos some inv, separates-Inv r' name s pos inv)
        | inr g ↦ rw (e, f, g) (refl, (inv.0, omega (arith, inv.1), inv.2))
      ]
    ]
  ]
    where
      opens_same : ok (opens r name s pos) ≡ ok (opens r' name s pos)
      opens_same = refl

  read_loop-agree :
      (s : ReadScan) (pos : ℕ) (rest : Bytes)
      → 1 ≤ length name
      → Inv pos s
      → read_loop r name s pos rest ≡ read_loop r' name s pos rest
  unfolding read_loop
  read_loop-agree s pos [] some inv = refl
  read_loop-agree s pos (c ∷ rest) some inv = elim (Bool-cases (ltb c 128 || leb 192 c)) [
    | inl e ↦ elim (Bool-cases (s.skip == 0)) [
      | inl z ↦
          let step = read_step-agree s pos c rest some inv in
          rw (e, z, step.0)
            (bind-agree (Inv (pos + 1)) (read_step r' name s pos c rest) _ _ step.1
              λ s' inv'. read_loop-agree s' (pos + 1) rest some inv')
      | inr z ↦
          rw (e, z)
            (read_loop-agree (record s { skip = s.skip - 1 }) (pos + 1) rest some
              (inv.0, omega (arith, inv.1), inv.2))
    ]
    | inr e ↦ rw e (read_loop-agree s pos rest some inv)
  ]

  read_tuple-agree : 1 ≤ length name → read_tuple r name ≡ read_tuple r' name
  unfolding read_tuple
  read_tuple-agree some = rw (
      read_loop-agree read_scan 0 name some (omega arith, omega arith, λ two. absurd (omega arith)))

  front-agree :
      {T : Type 0} (less : ℕ) (f : ParamType → Result T)
      → 1 ≤ less
      → count_chars name ≤ length name
      → (front r name less >>= λ sub. r sub >>= f) ≡ (front r' name less >>= λ sub. r' sub >>= f)
  unfolding front
  front-agree less f some few = elim (Bool-cases (ltb (count_chars name) less)) [
    | inl e ↦ rw e
    | inr e ↦ rw e (
        bind-agree
          (λ sub. (length sub ≤ length name - 0) × (length sub ≤ count_chars name - less - 0))
          (str_slice name 0 (count_chars name - less)) _ _
          (length-str_slice name 0 (count_chars name - less))
          λ sub short. rw (agree sub (ground arith)))
  ]

  read_array-agree : count_chars name ≤ length name → read_array r name ≡ read_array r' name
  unfolding read_array
  read_array-agree few = elim (Bool-cases (length (number_part [] name) == 0)) [
    | inl e ↦ rw e (front-agree 2 _ (omega arith) few)
    | inr e ↦ rw e (
        bind-agree (λ _. Unit {0}) (ok_or (parse_usize (number_part [] name)) parse_int) _ _
          (anything _) λ len _. front-agree (length (number_part [] name) + 2) _ (omega arith) few)
  ]
    where
      anything : (m : Result ℕ) → OkThen (λ _. Unit {0}) m
      anything (ok n) = tt
      anything (err e) = tt
      anything panic = tt

count_chars-le : (bs : Bytes) → count_chars bs ≤ length bs
count_chars-le [] = omega arith
count_chars-le (b ∷ bs) = ground (arith, count_chars-le bs)

ends_with-some : (bs : Bytes) (c : ℕ) → ends_with bs c ≡ true → 1 ≤ length bs
unfolding ends_with
ends_with-some [] c h = absurd (cc)
ends_with-some (b ∷ bs) c h = omega arith

-- One round of a reader.
abbrev pub round : (Bytes → Result ParamType) → Bytes → Result ParamType
round r name =
    if ends_with name b')'
    then read_tuple r name
    else if ends_with name b']'
    then read_array r name
    else read_word name

round-agree :
    (r r' : Bytes → Result ParamType) (name : Bytes)
    → ((sub : Bytes) → length sub < length name → r sub ≡ r' sub)
    → round r name ≡ round r' name
round-agree r r' name agree = elim (Bool-cases (ends_with name b')')) [
  | inl e ↦ rw e (read_tuple-agree r r' name agree (ends_with-some name b')' e))
  | inr e ↦ elim (Bool-cases (ends_with name b']')) [
    | inl f ↦ rw (e, f) (read_array-agree r r' name agree (count_chars-le name))
    | inr f ↦ rw (e, f)
  ]
]

read_within-agree :
    (stop stop' : Result ParamType) (n m : ℕ) (name : Bytes)
    → length name < n
    → length name < m
    → read_within stop n name ≡ read_within stop' m name
unfolding read_within
read_within-agree stop stop' zero m name h k = absurd (omega arith)
read_within-agree stop stop' (suc n) zero name h k = absurd (omega arith)
read_within-agree stop stop' (suc n) (suc m) name h k =
    round-agree (read_within stop n) (read_within stop' m) name
      λ sub short. read_within-agree stop stop' n m sub (omega arith) (omega arith)

-- `read` satisfies the recursive equation of `Reader::read`, which has no bound on its rounds.
pub read-eq : (name : Bytes) → read name ≡ round read name
unfolding read read_within
read-eq name =
    read_within-agree panic panic (length name + 1) (suc (length name)) name (omega arith)
      (omega arith)
    ∙ round-agree (read_within panic (length name)) read name λ sub short.
      read_within-agree panic panic (length name) (length sub + 1) sub short (omega arith)

-- `Reader::read` ends: for each name, any number of rounds above the length of the name gives the
-- result of `read`, whatever a reader that has no rounds left answers, so that no reading gets there;
-- and the result satisfies the recursive equation of `Reader::read`, which has no bound: a name that
-- ends in a parenthesis is read as a tuple and one that ends in a bracket as an array, both with `read`
-- itself for their parts, and any other name as a word.
pub read_within-ends :
    (stop : Result ParamType) (rounds : ℕ) (name : Bytes)
    → length name < rounds
    → (read_within stop rounds name ≡ read name)
      × (read name ≡ (
          if ends_with name b')'
          then read_tuple read name
          else if ends_with name b']'
          then read_array read name
          else read_word name))
unfolding read
read_within-ends stop rounds name h =
    (read_within-agree stop panic rounds (length name + 1) name h (omega arith), read-eq name)
