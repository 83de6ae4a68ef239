-- ===== src/Contract/Entries.antt =====
-- The entries of one kind in a contract (ethabi/src/contract.rs): ordered by name, and put back by
-- inserting them one by one.
use ethabi.Base.{
  ◌≡◌, refl, ap, sym, ◌∙◌, inl, inr, true, List, [], ◌∷◌, ◌++◌, flatten, append_assoc, append-nil,
  All, All-weaken, All-append, Bytes, BTreeMap, get, insert, All-insert, insert-last, insert-again,
  subst, before, before_trans, before_total, text_eq, text_eq_sound, Bool-cases,
}
use ethabi.Contract.{or_default, push_entry, all_entries}

module _ {V : Type 0} (name_of : V → Bytes) where
  abbrev AllNamed : Bytes → List V → Type 0
  AllNamed k vs = All (λ v. name_of v ≡ k) vs

  abbrev NonEmpty : Bytes → List V → Type 0
  NonEmpty k [] = ⊥
  NonEmpty k (v ∷ vs) = AllNamed k (v ∷ vs)

  -- Ordered keys, each with its values, one at least.
  abbrev pub AreEntries : BTreeMap (List V) → Type 0
  AreEntries [] = Unit {0}
  AreEntries ((k, vs) ∷ m) = All (λ kv. before k kv.0 ≡ true) m × NonEmpty k vs × AreEntries m

  NonEmpty-AllNamed : (k : Bytes) (vs : List V) → NonEmpty k vs → AllNamed k vs
  NonEmpty-AllNamed k [] h = absurd h
  NonEmpty-AllNamed k (v ∷ vs) h = h

  AllNamed-NonEmpty :
      (k : Bytes) (vs : List V) (v : V)
      → AllNamed k vs
      → name_of v ≡ k
      → NonEmpty k (vs ++ (v ∷ []))
  AllNamed-NonEmpty k [] v h e = (e, tt)
  AllNamed-NonEmpty k (u ∷ vs) v h e = All-append (λ v. name_of v ≡ k) (u ∷ vs) (v ∷ []) h (e, tt)

  get-AllNamed :
      (m : BTreeMap (List V)) (k : Bytes) → AreEntries m → AllNamed k (or_default (get m k))
  get-AllNamed [] k h = tt
  get-AllNamed ((j, vs) ∷ m) k h = elim (Bool-cases (text_eq k j)) [
    | inl e ↦
        let same : j ≡ k = sym (text_eq_sound k j e) in
        rw e (subst (λ n. AllNamed n vs) same (NonEmpty-AllNamed j vs h.1))
    | inr e ↦ rw e (get-AllNamed m k h.2)
  ]

  AreEntries-insert :
      (k : Bytes) (vs : List V) (m : BTreeMap (List V))
      → NonEmpty k vs
      → AreEntries m
      → AreEntries (insert k vs m)
  AreEntries-insert k vs [] n h = (tt, n, tt)
  AreEntries-insert k vs ((j, us) ∷ m) n h = elim (Bool-cases (text_eq k j)) [
    | inl e ↦
        let same : k ≡ j = text_eq_sound k j e in rw e (h.0, subst (λ i. NonEmpty i vs) same n, h.2)
    | inr e ↦ elim (Bool-cases (before k j)) [
      | inl b ↦ rw (e, b) ((b, All-weaken m h.0 λ kv l. before_trans k j kv.0 b l), n, h)
      | inr b ↦
          rw (e, b)
            (
              All-insert (λ i. before j i ≡ true) k vs m (before_total k j e b) h.0,
              h.1,
              AreEntries-insert k vs m n h.2,
            )
    ]
  ]

  pub AreEntries-push_entry :
      (v : V) (m : BTreeMap (List V)) → AreEntries m → AreEntries (push_entry (name_of v) v m)
  AreEntries-push_entry v m h =
      let k = name_of v in
      AreEntries-insert k (or_default (get m k) ++ (v ∷ [])) m
        (AllNamed-NonEmpty k (or_default (get m k)) v (get-AllNamed m k h) refl) h

  -- Entries pushed one after the other.
  abbrev pub push_all : List V → BTreeMap (List V) → BTreeMap (List V)
  push_all [] m = m
  push_all (v ∷ vs) m = push_all vs (push_entry (name_of v) v m)

  push_all-append :
      (us vs : List V) (m : BTreeMap (List V)) → push_all (us ++ vs) m ≡ push_all vs (push_all us m)
  push_all-append [] vs m = refl
  push_all-append (u ∷ us) vs m = push_all-append us vs (push_entry (name_of u) u m)

  push_all-last :
      (k : Bytes) (us vs : List V) (m : BTreeMap (List V))
      → All (λ kv. before kv.0 k ≡ true) m
      → AllNamed k vs
      → push_all vs (m ++ ((k, us) ∷ [])) ≡ m ++ ((k, us ++ vs) ∷ [])
  push_all-last k us [] m b h = ap (λ t. m ++ ((k, t) ∷ [])) (sym (append-nil us))
  push_all-last k us (v ∷ vs) m b h =
      let again = insert-again k (us ++ (v ∷ [])) us m b in
      rw (
        h.0,
        again.1,
        again.0,
        push_all-last k (us ++ (v ∷ [])) vs m b h.1,
        append_assoc us (v ∷ []) vs,
      )

  push_all-entries :
      (m front : BTreeMap (List V))
      → AreEntries m
      → All (λ kv. All (λ jw. before jw.0 kv.0 ≡ true) front) m
      → push_all (all_entries m) front ≡ front ++ m
  unfolding flatten
  push_all-entries [] front h b = sym (append-nil front)
  push_all-entries ((k, []) ∷ m) front h b = absurd h.1
  push_all-entries ((k, v ∷ vs) ∷ m) front h b =
      let new = insert-last k (v ∷ []) front b.0 in
      let start : push_entry (name_of v) v front ≡ front ++ ((k, v ∷ []) ∷ []) =
        rw (h.1.0, new.1, new.0) in
      push_all-append vs (all_entries m) (push_entry (name_of v) v front)
      ∙ ap (λ t. push_all (all_entries m) (push_all vs t)) start
      ∙ ap (λ t. push_all (all_entries m) t) (push_all-last k (v ∷ []) vs front b.0 h.1.1)
      ∙ push_all-entries m (front ++ ((k, v ∷ vs) ∷ [])) h.2 (behind m h.0 b.1)
      ∙ append_assoc front ((k, v ∷ vs) ∷ []) m
    where
      behind :
          (l : BTreeMap (List V))
          → All (λ kv. before k kv.0 ≡ true) l
          → All (λ kv. All (λ jw. before jw.0 kv.0 ≡ true) front) l
          → All (λ kv. All (λ jw. before jw.0 kv.0 ≡ true) (front ++ ((k, v ∷ vs) ∷ []))) l
      behind [] c d = tt
      behind ((j, w) ∷ l) c d = (
        All-append (λ jw. before jw.0 j ≡ true) front ((k, v ∷ vs) ∷ []) d.0 (c.0, tt),
        behind l c.1 d.1,
      )

  -- Pushing all entries of a map into the empty map gives the map again.
  pub push_all-all_entries :
      (m : BTreeMap (List V)) → AreEntries m → push_all (all_entries m) [] ≡ m
  push_all-all_entries m h = push_all-entries m [] h (nothing m)
    where
      nothing :
          (l : BTreeMap (List V))
          → All (λ kv. All (λ (jw : Bytes × List V). before jw.0 kv.0 ≡ true) []) l
      nothing [] = tt
      nothing (kv ∷ l) = (tt, nothing l)
