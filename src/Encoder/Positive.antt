-- ===== src/Encoder/Positive.antt =====
-- Typed tokens have heads of a byte at least, so the size of an encoding bounds their number.
use ethabi.Base.{◌≤◌, Bool-cases, inl, inr, arith}
use ethabi.ParamType.{ParamType, ParamTypes}
use ethabi.Token.{
  Token, Tokens, address, fixed_bytes, bytes, int, uint, bool, string, fixed_array, array, tuple,
  nil, cons, count, any_dynamic,
}
use ethabi.Token.Typing.{HasType, AllHaveType, HaveTypes}
use ethabi.Encoder.Spec.{head_size, heads_size}

mutual
  unfolding head_size

  pub head_size_pos : (t : Token) (p : ParamType) → HasType t p → 1 ≤ head_size t
  head_size_pos (fixed_bytes bs) (ParamType.fixed_bytes n) h = omega arith
  head_size_pos (fixed_array ts) (ParamType.fixed_array p n) h =
      elim (Bool-cases (any_dynamic ts)) [
        | inl d ↦ rw d (omega arith)
        | inr s ↦ rw s (omega (arith, count-le-heads_size ts p h.2))
      ]
  head_size_pos (tuple ts) (ParamType.tuple ps) h = elim (Bool-cases (any_dynamic ts)) [
    | inl d ↦ rw d (omega arith)
    | inr s ↦ rw s (omega (arith, count-le-heads_sizes ts ps h.1))
  ]
  head_size_pos (address a) p h = omega arith
  head_size_pos (bytes a) p h = omega arith
  head_size_pos (string a) p h = omega arith
  head_size_pos (int a) p h = omega arith
  head_size_pos (uint a) p h = omega arith
  head_size_pos (bool a) p h = omega arith
  head_size_pos (array a) p h = omega arith
  head_size_pos _ _ h = absurd h

  pub count-le-heads_size :
      (ts : Tokens) (p : ParamType) → AllHaveType ts p → count ts ≤ heads_size ts
  count-le-heads_size nil p h = omega arith
  count-le-heads_size (cons t ts) p h =
      omega (arith, head_size_pos t p h.0, count-le-heads_size ts p h.1)

  pub count-le-heads_sizes :
      (ts : Tokens) (ps : ParamTypes) → HaveTypes ts ps → count ts ≤ heads_size ts
  count-le-heads_sizes nil ParamTypes.nil h = omega arith
  count-le-heads_sizes (cons t ts) (ParamTypes.cons p ps) h =
      omega (arith, head_size_pos t p h.0, count-le-heads_sizes ts ps h.1)
  count-le-heads_sizes _ _ h = absurd h
