-- ===== src/Contract/Sanitized.antt =====
-- `sanitize_name` (ethabi/src/util.rs).
use ethabi.Base.{
  ◌≡◌, refl, ap, ◌⊎◌, inl, inr, Bool-cases, true, false, ◌==◌, [], ◌∷◌, ◌++◌, All, Bytes,
}
use ethabi.Tokenizer.{starts_with}
use ethabi.Contract.{sanitize_name}

-- The sanitized name has no opening parenthesis, and is the name without an end that is empty or
-- begins with one.
pub sanitize_name_lem :
    (name : Bytes)
    → All (λ b. (b == b'(') ≡ false) (sanitize_name name)
      × ((rest : Bytes) × (name ≡ sanitize_name name ++ rest)
          × ((rest ≡ []) ⊎ (starts_with rest b'(' ≡ true)))
unfolding sanitize_name starts_with
sanitize_name_lem [] = (tt, ([], refl, inl refl))
sanitize_name_lem (b ∷ bs) = elim (Bool-cases (b == b'(')) [
  | inl e ↦ rw e (tt, (b ∷ bs, refl, inr e))
  | inr e ↦
      let rest = sanitize_name_lem bs in
      rw e ((e, rest.0), (rest.1.0, ap (λ t. b ∷ t) rest.1.1, rest.1.2))
]
