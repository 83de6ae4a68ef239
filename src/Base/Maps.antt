-- ===== src/Base/Maps.antt =====
-- Rust's `BTreeMap<String, V>`: pairs in the order of their keys.
use mathlib.Core.Path.{◌≡◌, refl, sym}
use mathlib.Core.Bool.{Bool, true, false, ◌||◌}
use mathlib.Core.List.{List, [], ◌∷◌, ◌++◌}
use mathlib.Core.Option.{Option, none, some}
use native.Mathlib.Omega.{arith}
use ethabi.Base.Tests.{if◌then◌else◌, Bool-cases}
use ethabi.Base.Order.{before, after}
use ethabi.Base.Lists.{Bytes, All}
use ethabi.Base.Text.{text_eq, text_eq_sound, text_eq_refl}
use mathlib.Core.Logic.{◌⊎◌, inl, inr}

abbrev pub BTreeMap {ℓ} : Type ℓ → Type ℓ
BTreeMap V = List (Bytes × V)

module _ {ℓ} {V : Type ℓ} where
  -- `BTreeMap::get`
  abbrev pub get : BTreeMap V → Bytes → Option V
  get [] k = none
  get ((j, v) ∷ m) k = if text_eq k j then some v else get m k

  -- `BTreeMap::insert`, which replaces the value of a key that is there.
  abbrev pub insert : Bytes → V → BTreeMap V → BTreeMap V
  insert k v [] = (k, v) ∷ []
  insert k v ((j, w) ∷ m) =
      if text_eq k j
      then (j, v) ∷ m
      else if before k j
      then (k, v) ∷ (j, w) ∷ m
      else (j, w) ∷ insert k v m

  -- `collect` from an iterator of pairs: later pairs replace earlier ones.
  abbrev pub insert_all : List (Bytes × V) → BTreeMap V → BTreeMap V
  insert_all [] m = m
  insert_all ((k, v) ∷ kvs) m = insert_all kvs (insert k v m)

  -- What was inserted is found, and the other keys keep their values.
  pub get-insert :
      (k j : Bytes) (v : V) (m : BTreeMap V)
      → get (insert k v m) j ≡ (if text_eq j k then some v else get m j)
  get-insert k j v [] = refl
  get-insert k j v ((i, w) ∷ m) = elim (Bool-cases (text_eq k i)) [
    | inl e ↦ let eq : i ≡ k = sym (text_eq_sound k i e) in rw (e, eq) (by_test (text_eq j k))
    | inr e ↦
        let there : (text_eq j k ≡ true) → text_eq j i ≡ false =
          λ h. let eq = text_eq_sound j k h in rw eq e in
        elim (Bool-cases (before k i)) [
          | inl b ↦ rw (e, b)
          | inr b ↦
              let rest = get-insert k j v m in
              elim (Bool-cases (text_eq j k)) [
                | inl f ↦ let apart = there f in rw (e, b, apart, rest, f)
                | inr f ↦ rw (e, b, rest, f)
              ]
        ]
  ]
    where
      by_test :
          (b : Bool)
          → (if b then some v else get m j)
            ≡ (if b then some v else (if b then some w else get m j))
      by_test true = refl
      by_test false = refl

  pub get-insert_all_other :
      (kvs : List (Bytes × V)) (m : BTreeMap V) (j : Bytes)
      → All (λ kv. text_eq j kv.0 ≡ false) kvs
      → get (insert_all kvs m) j ≡ get m j
  get-insert_all_other [] m j h = refl
  get-insert_all_other ((k, v) ∷ kvs) m j h =
      rw (get-insert_all_other kvs (insert k v m) j h.1, get-insert k j v m, h.0)

  pub insert_all-append :
      (kvs lws : List (Bytes × V)) (m : BTreeMap V)
      → insert_all (kvs ++ lws) m ≡ insert_all lws (insert_all kvs m)
  insert_all-append [] lws m = refl
  insert_all-append ((k, v) ∷ kvs) lws m = insert_all-append kvs lws (insert k v m)

  -- Whether one of the pairs has the key.
  abbrev pub has_key : List (Bytes × V) → Bytes → Bool
  has_key [] j = false
  has_key ((k, v) ∷ kvs) j = text_eq j k || has_key kvs j

  pub has_key-append :
      (kvs lws : List (Bytes × V)) (j : Bytes)
      → has_key (kvs ++ lws) j ≡ (has_key kvs j || has_key lws j)
  has_key-append [] lws j = refl
  has_key-append ((k, v) ∷ kvs) lws j = ground (arith, has_key-append kvs lws j)

  -- The value of a key that is in the map, or is inserted into it, is found.
  pub get-insert_all :
      (kvs : List (Bytes × V)) (m : BTreeMap V) (j : Bytes)
      → (has_key kvs j ≡ true) ⊎ ((v : V) × (get m j ≡ some v))
      → (v : V) × (get (insert_all kvs m) j ≡ some v)
  get-insert_all [] m j (inl h) = absurd (cc)
  get-insert_all [] m j (inr found) = found
  get-insert_all ((k, v) ∷ kvs) m j h = get-insert_all kvs (insert k v m) j (later h)
    where
      later :
          ((text_eq j k || has_key kvs j) ≡ true) ⊎ ((w : V) × (get m j ≡ some w))
          → (has_key kvs j ≡ true) ⊎ ((w : V) × (get (insert k v m) j ≡ some w))
      later h = elim (Bool-cases (text_eq j k)) [
        | inl e ↦ inr (v, rw (get-insert k j v m, e))
        | inr e ↦ elim h [
          | inl there ↦ let rest : has_key kvs j ≡ true = (rw e at there) in inl rest
          | inr found ↦ inr (found.0, rw (get-insert k j v m, e) found.1)
        ]
      ]

  -- `insert` adds one key, at most.
  pub All-insert :
      (P : Bytes → Type 0) (k : Bytes) (v : V) (m : BTreeMap V)
      → P k
      → All (λ kv. P kv.0) m
      → All (λ kv. P kv.0) (insert k v m)
  All-insert P k v [] p h = (p, tt)
  All-insert P k v ((j, w) ∷ m) p h = elim (Bool-cases (text_eq k j)) [
    | inl e ↦ rw e h
    | inr e ↦ elim (Bool-cases (before k j)) [
      | inl b ↦ rw (e, b) (p, h)
      | inr b ↦ rw (e, b) (h.0, All-insert P k v m p h.1)
    ]
  ]

  -- At a key behind all others.
  pub insert-last :
      (k : Bytes) (v : V) (m : BTreeMap V)
      → All (λ kv. before kv.0 k ≡ true) m
      → (insert k v m ≡ m ++ ((k, v) ∷ [])) × (get m k ≡ none)
  insert-last k v [] h = (refl, refl)
  insert-last k v ((j, w) ∷ m) h =
      let apart = after j k h.0 in
      let rest = insert-last k v m h.1 in (rw (apart.0, apart.1, rest.0), rw (apart.0, rest.1))

  pub insert-again :
      (k : Bytes) (v u : V) (m : BTreeMap V)
      → All (λ kv. before kv.0 k ≡ true) m
      → (insert k v (m ++ ((k, u) ∷ [])) ≡ m ++ ((k, v) ∷ []))
        × (get (m ++ ((k, u) ∷ [])) k ≡ some u)
  insert-again k v u [] h = (rw (text_eq_refl k), rw (text_eq_refl k))
  insert-again k v u ((j, w) ∷ m) h =
      let apart = after j k h.0 in
      let rest = insert-again k v u m h.1 in (rw (apart.0, apart.1, rest.0), rw (apart.0, rest.1))
