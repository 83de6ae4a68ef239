-- ===== src/Calls.antt =====
-- The pattern that calls, errors and constructors share: tokens are checked, encoded, and put
-- behind some bytes (ethabi/src/function.rs, error.rs, constructor.rs).
use ethabi.Base.{
  ◌^◌, ◌<◌, ◌≡◌, Bool, true, false, ◌++◌, length, take, drop, take-append, drop-append, Bytes,
  Result, ok, err, panic, invalid_data, ◌>>=◌, ◌>>◌, guard,
}
use ethabi.Externs.{Externs, IsExterns}
use ethabi.ParamType.{ParamTypes}
use ethabi.Token.{Tokens, types_check}
use ethabi.Token.Typing.{AreTokens, HaveTypes}
use ethabi.Token.Checks.{types_check-HaveTypes}
use ethabi.Encoder.{encode}
use ethabi.Encoder.Spec.{encoding}
use ethabi.Encoder.Refines.{encode-eq-encoding}
use ethabi.Decoder.{decode}
use ethabi.RoundTrip.{decode-encoding}

-- Tokens that are checked, encoded, and put behind some bytes.
abbrev pub checked_call : (x : Externs) → ParamTypes → Tokens → Bytes → Result Bytes
checked_call x ps ts front = types_check ts ps >>= λ checked.
    guard checked invalid_data >> (encode x ts >>= λ encoded. ok (front ++ encoded))

module _ (x : Externs) (ext : IsExterns x) (ts : Tokens) (ps : ParamTypes) (w : AreTokens ts)
    (h : HaveTypes ts ps) (fits : length (encoding x ts) < 2 ^ 32) where
  pub checked_call-encoding :
      (front : Bytes) → checked_call x ps ts front ≡ ok (front ++ encoding x ts)
  checked_call-encoding front =
      rw (types_check-HaveTypes ts ps h, encode-eq-encoding x ext ts w fits)

  pub decode-checked_call :
      (front : Bytes)
      → (checked_call x ps ts front >>= λ call. decode x ps (drop (length front) call)) ≡ ok ts
  decode-checked_call front =
      rw (checked_call-encoding front, drop-append front (encoding x ts))
        (decode-encoding x ext ts ps w h fits)

-- A call that succeeds begins with what was put in front.
pub take-checked_call :
    (x : Externs) (ps : ParamTypes) (ts : Tokens) (front call : Bytes)
    → checked_call x ps ts front ≡ ok call
    → take (length front) call ≡ front
take-checked_call x ps ts front call h = go (types_check ts ps) (encode x ts) h
  where
    go :
        (r : Result Bool) (e : Result Bytes)
        → (r >>= λ checked. guard checked invalid_data >> (e >>= λ encoded. ok (front ++ encoded)))
          ≡ ok call
        → take (length front) call ≡ front
    go (ok true) (ok bs) h =
        let built : front ++ bs ≡ call = cc in rw (← built) (take-append front bs)
    go (ok true) (err e) h = cc
    go (ok true) panic h = cc
    go (ok false) e h = cc
    go (err e) _ h = cc
    go panic _ h = cc
