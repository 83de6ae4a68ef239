-- ===== src/ParamType/Reader/Kept.antt =====
-- What the loop of `Reader::read` (ethabi/src/param_type/reader.rs) keeps.
use ethabi.Base.{ℕ, ◌+◌, ◌-◌, ◌≤◌, inl, inr, ◌==◌, ltb, length, Bytes, Result, Bool-cases, arith}
use ethabi.ParamType.{ParamType}
use ethabi.Tokenizer.{str_slice}
use ethabi.ParamType.Reader.{
  ReadScan, take_at, push_at, trailing, opens, ends_inner, closes, separates,
}
use ethabi.ParamType.Reader.Cuts.{OkThen, OkThen-bind}

-- What the loop keeps: the parts it cuts out begin behind the first character.
abbrev pub Inv : ℕ → ReadScan → Type 0
Inv pos s = (1 ≤ s.last_item) × (s.nested ≤ pos) × (2 ≤ s.nested → 1 ≤ s.top_level_paren_open)

module _ (r : Bytes → Result ParamType) (name : Bytes) where
  pub opens-Inv : (s : ReadScan) (pos : ℕ) → Inv pos s → Inv (pos + 1) (opens r name s pos)
  unfolding opens
  opens-Inv s pos inv = elim (Bool-cases (ltb 0 s.nested)) [
    | inl e ↦ rw e (omega arith, omega (arith, inv.1), λ _. ground arith)
    | inr e ↦ rw e (inv.0, omega (arith, inv.1), λ two. absurd (ground arith))
  ]

  ends_inner-Inv :
      (s : ReadScan) (nested pos more : ℕ)
      → nested ≤ pos
      → (2 ≤ nested → 1 ≤ s.top_level_paren_open)
      → OkThen (Inv (pos + 1)) (ends_inner r name s nested pos more)
  unfolding ends_inner
  ends_inner-Inv s nested pos more few opened =
      OkThen-bind _ (str_slice name s.top_level_paren_open (pos + more + 1)) _ λ inner.
        OkThen-bind _ (r inner) _ λ subtype. elim (Bool-cases (ltb 1 nested)) [
          | inl e ↦ rw e (
              OkThen-bind _ (take_at s.subtuples (nested - 2)) _
                λ t. (omega arith, omega arith, opened))
          | inr e ↦ rw e (omega arith, omega arith, opened)
        ]

  pub closes-Inv :
      (s : ReadScan) (pos : ℕ) (rest : Bytes)
      → Inv pos s
      → OkThen (Inv (pos + 1)) (closes r name s pos rest)
  unfolding closes
  closes-Inv s pos rest inv = elim (Bool-cases (s.nested == 0)) [
    | inl z ↦ rw z tt
    | inr z ↦ rw z (
        OkThen-bind _ (str_slice name s.last_item pos) _ λ sub.
          elim (Bool-cases (length sub == 0)) [
            | inl e ↦ rw e (omega arith, omega (arith, inv.1), λ two. inv.2 (omega arith))
            | inr e ↦ elim (Bool-cases (s.nested == 1)) [
              | inl o ↦
                  rw (e, o)
                    (OkThen-bind _ (r sub) _
                      λ t. (omega arith, omega arith, λ two. absurd (omega arith)))
              | inr o ↦
                  rw (e, o)
                    (ends_inner-Inv s (s.nested - 1) pos (trailing rest) (omega (arith, inv.1))
                      λ two. inv.2 (omega arith))
            ]
          ])
  ]

  pub separates-Inv :
      (s : ReadScan) (pos : ℕ) → Inv pos s → OkThen (Inv (pos + 1)) (separates r name s pos)
  unfolding separates
  separates-Inv s pos inv = OkThen-bind _ (str_slice name s.last_item pos) _ λ sub.
      elim (Bool-cases (length sub == 0)) [
        | inl e ↦ rw e (omega arith, omega (arith, inv.1), inv.2)
        | inr e ↦ elim (Bool-cases (s.nested == 1)) [
          | inl o ↦
              rw (e, o) (OkThen-bind _ (r sub) _ λ t. (omega arith, omega (arith, inv.1), inv.2))
          | inr o ↦ elim (Bool-cases (ltb 1 s.nested)) [
            | inl d ↦
                rw (e, o, d)
                  (OkThen-bind _ (r sub) _ λ t.
                    OkThen-bind _ (push_at s.subtuples (s.nested - 2) t) _
                      λ u. (omega arith, omega (arith, inv.1), inv.2))
            | inr d ↦ rw (e, o, d) (inv.0, omega (arith, inv.1), inv.2)
          ]
        ]
      ]
