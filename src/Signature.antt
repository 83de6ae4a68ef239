-- ===== src/Signature.antt =====
-- ethabi/src/signature.rs: selectors of functions and topics of events.
use ethabi.Base.{ℕ, ◌≡◌, ◌++◌, length, take, Bytes, text, join, arith, length-take_bytes}
use ethabi.Externs.{Externs, IsExterns}
use ethabi.ParamType.{ParamTypes}
use ethabi.ParamType.Writer.{write_all}

module _ (x : Externs) where
  -- The first `n` bytes of the hash of `name(types)`.
  unfoldable pub fill_signature : Bytes → ParamTypes → ℕ → Bytes
  unfolding write_all
  fill_signature name params n =
      let types = join (text ",") (write_all params) in
      take n (x.keccak256 (name ++ (text "(" ++ (types ++ text ")"))))

  unfoldable pub short_signature : Bytes → ParamTypes → Bytes
  unfolding fill_signature
  short_signature name params = fill_signature name params 4

  unfoldable pub long_signature : Bytes → ParamTypes → Bytes
  unfolding fill_signature
  long_signature name params = fill_signature name params 32

module _ (x : Externs) (ext : IsExterns x) where
  pub length-short_signature :
      (name : Bytes) (params : ParamTypes) → length (short_signature x name params) ≡ 4
  unfolding short_signature
  length-short_signature name params = omega (arith, length-take_bytes 4 _, ext.length_digest _)
