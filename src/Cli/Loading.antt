-- ===== src/Cli/Loading.antt =====
-- `load_function` and `load_event` (cli/src/main.rs) on a contract that was read from a list of entries.
use ethabi.Base.{
  ℕ, suc, ◌+◌, ◌==◌, Bool, true, false, Bool-cases, if◌then◌else◌, Option, some, none, List, [],
  ◌∷◌, ◌++◌, length, take, All, Bytes, ok, text, text_eq, text_eq_refl, text_eq_sound, join, ◌≡◌,
  refl, sym, ap, ◌∙◌, subst, arith, inl, inr,
}
use ethabi.Externs.{IsExterns}
use ethabi.ParamType.Writer.{write_all}
use ethabi.Signature.{long_signature}
use ethabi.Function
use ethabi.Function.{Function, input_param_types, output_param_types}
use ethabi.Event
use ethabi.Event.{Event}
use ethabi.Contract.{
  Contract, Operation, function_, event_, visit_seq, functions_by_name, events_by_name,
}
use ethabi.Contract.Lookups.{
  as_function, as_event, entries_named, all_of, function-visit_seq, event-visit_seq,
}
use ethabi.Cli.{
  Tools, find_paren, find, found, load_function, load_event, hash_signature, remove_spaces,
}

-- No opening parenthesis, as `sanitize_name` leaves a name.
abbrev pub IsName : Bytes → Type 0
IsName s = All (λ b. (b == b'(') ≡ false) s

one_more : (n : ℕ) → n + 1 ≡ suc n
one_more n = omega arith

find_paren-name :
    (name rest : Bytes) → IsName name → find_paren (name ++ (b'(' ∷ rest)) ≡ some (length name)
unfolding find_paren
find_paren-name [] rest h = refl
find_paren-name (b ∷ bs) rest h =
    rw (h.0, find_paren-name bs rest h.1) (ap some (one_more (length bs)))

take-name : (name rest : Bytes) → take (length name) (name ++ rest) ≡ name
take-name [] rest = refl
take-name (b ∷ bs) rest = ap (λ l. b ∷ l) (take-name bs rest)

take_whole : (bs : Bytes) → take (length bs) bs ≡ bs
take_whole [] = refl
take_whole (b ∷ bs) = ap (λ l. b ∷ l) (take_whole bs)

take_all : (n : ℕ) (bs : Bytes) → length bs ≡ n → take n bs ≡ bs
take_all n bs h = subst (λ n. take n bs ≡ bs) h (take_whole bs)

module _ {V : Type 0} where
  find-some :
      (test : V → Bool) (us vs : List V) (v : V)
      → test v ≡ true
      → (u : V) × (find test (us ++ (v ∷ vs)) ≡ some u) × (test u ≡ true)
  find-some test [] vs v h = (v, (rw h refl), h)
  find-some test (u ∷ us) vs v h = elim (Bool-cases (test u)) [
    | inl e ↦ (u, (rw e refl), e)
    | inr e ↦ let rest = find-some test us vs v h in (rest.0, (rw e rest.1), rest.2)
  ]

  -- An entry of a list is among the entries of its name.
  module _ (pick : Operation → Option V) (name_of : V → Bytes) where
    entries_named-append :
        (before after : List Operation) (op : Operation) (v : V)
        → pick op ≡ some v
        → (us : List V) × (vs : List V) × (entries_named pick name_of
              (name_of v)
              (before ++ (op ∷ after))
            ≡ us ++ (v ∷ vs))
    entries_named-append [] after op v h =
        ([], entries_named pick name_of (name_of v) after, (rw (h, text_eq_refl (name_of v)) refl))
    entries_named-append (o ∷ before) after op v h =
        let rest = entries_named-append before after op v h in by_kind (pick o) rest.0 rest.1 rest.2
      where
        by_kind :
            (found : Option V) (us vs : List V)
            → entries_named pick name_of (name_of v) (before ++ (op ∷ after)) ≡ us ++ (v ∷ vs)
            → (us : List V) × (vs : List V) × (elim found [
              | some w ↦
                  if text_eq (name_of v) (name_of w)
                  then w ∷ entries_named pick name_of (name_of v) (before ++ (op ∷ after))
                  else entries_named pick name_of (name_of v) (before ++ (op ∷ after))
              | none ↦ entries_named pick name_of (name_of v) (before ++ (op ∷ after))
            ]
                ≡ us ++ (v ∷ vs))
        by_kind none us vs h = (us, vs, h)
        by_kind (some w) us vs h = elim (Bool-cases (text_eq (name_of v) (name_of w))) [
          | inl e ↦ (w ∷ us, vs, rw e (ap (λ l. w ∷ l) h))
          | inr e ↦ (us, vs, rw e h)
        ]

  all_of-append :
      (n : Bytes) (us vs : List V) (v : V) → all_of n (us ++ (v ∷ vs)) ≡ ok (us ++ (v ∷ vs))
  all_of-append n [] vs v = refl
  all_of-append n (u ∷ us) vs v = refl

module _ (t : Tools) (path s : Bytes) (c : Contract) (loaded : t.load path ≡ ok c) where
  load_function-parts :
      (n : ℕ) (fs : List Function) (f : Function)
      → find_paren s ≡ some n
      → functions_by_name c (take n s) ≡ ok fs
      → find (λ f. text_eq (Function.signature f) s) fs ≡ some f
      → load_function t path s ≡ ok f
  unfolding load_function
  load_function-parts n fs f p h e = rw (loaded, p, h, e) refl

  load_event-parts :
      (n : ℕ) (es : List Event) (e : Event)
      → find_paren s ≡ some n
      → events_by_name c (take n s) ≡ ok es
      → find (λ e. text_eq (Event.signature t.externs e) (hash_signature t s)) es ≡ some e
      → load_event t path s ≡ ok e
  unfolding load_event
  load_event-parts n es e p h found = rw (loaded, p, h, found) refl

-- The text of an event: its name and the types of its parameters.
abbrev pub canonical : Event → Bytes
canonical e =
    e.name ++ (text "(" ++ (join (text ",") (write_all (Event.param_types e)) ++ text ")"))

hash_signature-canonical :
    (t : Tools) (ext : IsExterns t.externs) (e : Event) (s : Bytes)
    → remove_spaces s ≡ canonical e
    → hash_signature t s ≡ Event.signature t.externs e
unfolding hash_signature Event.signature long_signature
hash_signature-canonical t ext e s h =
    ap t.externs.keccak256 h
    ∙ sym (take_all 32 (t.externs.keccak256 (canonical e)) (ext.length_digest (canonical e)))

-- A signature begins with the name.
signature_head : (f : Function) → (rest : Bytes) × (Function.signature f ≡ f.name ++ (b'(' ∷ rest))
unfolding Function.signature
signature_head f =
    let inputs = join (text ",") (write_all (input_param_types f)) in
    let outputs = join (text ",") (write_all (output_param_types f)) in
    elim (Bool-cases (length outputs == 0)) [
      | inl e ↦ (inputs ++ text ")", (rw e refl))
      | inr e ↦ (inputs ++ (text "):(" ++ (outputs ++ text ")")), (rw e refl))
    ]

module _ (t : Tools) (path : Bytes) (before after : List Operation) where
  -- Where the file holds the function `f`, whose name has no parenthesis, `load_function` finds for
  -- the signature of `f` a function with that signature.
  pub load_function-signature :
      (f : Function)
      → t.load path ≡ ok (visit_seq (before ++ (function_ f ∷ after)))
      → IsName f.name
      → (g : Function) × (load_function t path (Function.signature f) ≡ ok g)
        × (Function.signature g ≡ Function.signature f)
  load_function-signature f loaded h =
      let ops = before ++ (function_ f ∷ after) in
      let s = Function.signature f in
      let head = signature_head f in
      let n = length f.name in
      let paren : find_paren s ≡ some n = ap find_paren head.1 ∙ find_paren-name f.name head.0 h in
      let name : take n s ≡ f.name = ap (take n) head.1 ∙ take-name f.name (b'(' ∷ head.0) in
      let split =
        entries_named-append as_function (λ f. f.name) before after (function_ f) f refl in
      let listed = split.0 ++ (f ∷ split.1) in
      let named : functions_by_name (visit_seq ops) (take n s) ≡ ok listed =
        ap (functions_by_name (visit_seq ops)) name
        ∙ (function-visit_seq ops f.name).1
        ∙ ap (all_of f.name) split.2
        ∙ all_of-append f.name split.0 split.1 f in
      let one =
        find-some (λ g. text_eq (Function.signature g) s) split.0 split.1 f (text_eq_refl s) in
      (
        one.0,
        load_function-parts t path s (visit_seq ops) loaded n listed one.0 paren named one.1,
        text_eq_sound (Function.signature one.0) s one.2,
      )

  -- Where the file holds the event `e`, whose name has no parenthesis, `load_event` finds for a text
  -- that is the name of `e` with its parameter types behind it, but for spaces in the types, an event
  -- with the signature of `e`.
  pub load_event-signature :
      (e : Event) (rest : Bytes)
      → IsExterns t.externs
      → t.load path ≡ ok (visit_seq (before ++ (event_ e ∷ after)))
      → IsName e.name
      → remove_spaces (e.name ++ (b'(' ∷ rest)) ≡ canonical e
      → (g : Event) × (load_event t path (e.name ++ (b'(' ∷ rest)) ≡ ok g)
        × (Event.signature t.externs g ≡ Event.signature t.externs e)
  load_event-signature e rest ext loaded h text_ =
      let ops = before ++ (event_ e ∷ after) in
      let s = e.name ++ (b'(' ∷ rest) in
      let n = length e.name in
      let name : take n s ≡ e.name = take-name e.name (b'(' ∷ rest) in
      let split = entries_named-append as_event (λ e. e.name) before after (event_ e) e refl in
      let listed = split.0 ++ (e ∷ split.1) in
      let named : events_by_name (visit_seq ops) (take n s) ≡ ok listed =
        ap (events_by_name (visit_seq ops)) name
        ∙ (event-visit_seq ops e.name).1
        ∙ ap (all_of e.name) split.2
        ∙ all_of-append e.name split.0 split.1 e in
      let same = hash_signature-canonical t ext e s text_ in
      let hit =
        ap (text_eq (Event.signature t.externs e)) same
        ∙ text_eq_refl (Event.signature t.externs e) in
      let one =
        find-some (λ g. text_eq (Event.signature t.externs g) (hash_signature t s)) split.0 split.1
          e hit in
      (
        one.0,
        load_event-parts t path s (visit_seq ops) loaded n listed one.0
            (find_paren-name e.name rest h) named one.1,
        text_eq_sound (Event.signature t.externs one.0) (hash_signature t s) one.2 ∙ same,
      )
