-- ===== src/Tokenizer/Typed.antt =====
-- The tokens that `tokenize` (ethabi/src/token/mod.rs) returns are of the type it was asked for.
use ethabi.Base.{
  ℕ, ◌+◌, ◌≤◌, ◌==◌, ltb, leb, not, ◌&&◌, ◌||◌, Bool, true, false, if◌then◌else◌, Bool-cases,
  Option, some, none, [], ◌∷◌, length, drop, Bytes, hex, invalid_data, Result, ok, err, panic,
  ◌>>=◌, Yields, unwinds, raises, gives, Yields-bind, ◌≡◌, arith, inl, inr, sign, decrement,
  Ordering, ℤ,
}
use ethabi.Externs.{Externs}
use ethabi.ParamType.{
  ParamType, address, bytes, bool, string, int, uint, fixed_bytes, array, fixed_array, tuple,
}
use ethabi.Token
use ethabi.Token.{Token, Tokens, push}
use ethabi.Token.Typing.{HasType, AllHaveType}
use ethabi.Tokenizer.Strict.{strict_tokenizer, decode_hex, decode_sized}
use ethabi.Tokenizer.Lenient.{Decimals, lenient_tokenizer}
use ethabi.Tokenizer.{
  strip_0x, starts, starts_with, ends_with, count_chars, is_zero_int, is_one_int, ArrayScan,
  array_scan, str_slice, end_item, end_tuple, array_step, array_loop, tokenize_array,
  tokenize_fixed_array,
}
use ethabi.Tokenizer.Structs.{TokenizerMethods, tokenize}

-- Without tuples, and with the sizes that Solidity has.
abbrev pub IsPlain : ParamType → Type 0
IsPlain (fixed_bytes n) = (1 ≤ n) × (n ≤ 32)
IsPlain (array p) = IsPlain p
IsPlain (fixed_array p n) = (1 ≤ n) × IsPlain p
IsPlain (tuple ps) = ⊥
IsPlain _ = Unit {0}

choose {ℓ κ} :
    {T : Type ℓ} {P : T → Type κ} {a b : Result T} (test : Bool)
    → Yields P a
    → Yields P b
    → Yields P (if test then a else b)
choose true x y = x
choose false x y = y

push-AllHaveType :
    (ts : Tokens) (t : Token) (p : ParamType)
    → AllHaveType ts p
    → HasType t p
    → AllHaveType (push ts t) p
push-AllHaveType Token.nil t p h k = (k, tt)
push-AllHaveType (Token.cons u us) t p h k = (h.0, push-AllHaveType us t p h.1 k)

-- An array whose items are read by `item`.
module _ (p : ParamType) (item : Bytes → Result Token)
    (typed : (s : Bytes) → Yields (λ t. HasType t p) (item s)) (value : Bytes) where
  abbrev Typed : ArrayScan → Type 0
  Typed s = AllHaveType s.result p

  any_slice : (from to : ℕ) → Yields (λ s. Unit {0}) (str_slice value from to)
  unfolding str_slice
  any_slice from to =
      choose
        (leb from to
          && (leb to (length value) && (starts (drop from value) && starts (drop to value))))
        (gives tt) unwinds

  end_item-Typed :
      (s : ArrayScan) (i : ℕ) (nested : ℤ) → Typed s → Yields Typed (end_item item value s i nested)
  unfolding end_item
  end_item-Typed s i nested h =
      Yields-bind (any_slice s.last_item i)
        (λ sub _. Yields-bind (typed sub) (λ t k. gives (push-AllHaveType s.result t p h k)))

  end_tuple-Typed :
      (s : ArrayScan) (i : ℕ) (nested : ℤ)
      → Typed s
      → Yields Typed (end_tuple item value s i nested)
  unfolding end_tuple
  end_tuple-Typed s i nested h =
      Yields-bind (any_slice s.tuple_item_start (i + 1))
        (λ sub _. Yields-bind (typed sub) (λ t k. gives (push-AllHaveType s.result t p h k)))

  by_sign :
      {a b c : Result ArrayScan} (o : Ordering)
      → Yields Typed a
      → Yields Typed b
      → Yields Typed c
      → Yields Typed (elim o [ Ordering.lt ↦ a | Ordering.eq ↦ b | Ordering.gt ↦ c ])
  by_sign Ordering.lt x y z = x
  by_sign Ordering.eq x y z = y
  by_sign Ordering.gt x y z = z

  array_step-Typed :
      (s : ArrayScan) (i ch : ℕ) → Typed s → Yields Typed (array_step item value s i ch)
  unfolding array_step
  array_step-Typed s i ch h =
      let inside = is_zero_int s.tuple_nested && (is_one_int s.nested && not s.ignore) in
      choose ((ch == b'(') && not s.ignore) (gives h) (
        choose ((ch == b')') && not s.ignore)
          (by_sign (sign (decrement s.tuple_nested)) raises
            (end_tuple-Typed s i (decrement s.tuple_nested) h) (gives h))
          (choose (not (is_zero_int s.tuple_nested)) (gives h) (
            choose ((ch == b'[') && not s.ignore) (gives h) (
              choose ((ch == b']') && (not s.ignore && s.last_is_tuple)) (gives h) (
                choose ((ch == b']') && not s.ignore)
                  (by_sign (sign (decrement s.nested)) raises
                    (choose s.last_is_tuple (gives h) (end_item-Typed s i (decrement s.nested) h))
                    (gives h))
                  (choose (ch == b'"') (gives h) (
                    choose ((ch == b',') && (inside && s.last_is_tuple)) (gives h) (
                      choose ((ch == b',') && inside) (end_item-Typed s i s.nested h)
                        (gives h)))))))))

  array_loop-Typed :
      (s : ArrayScan) (i : ℕ) (bs : Bytes) → Typed s → Yields Typed (array_loop item value s i bs)
  unfolding array_loop
  array_loop-Typed s i [] h = gives h
  array_loop-Typed s i (b ∷ bs) h =
      choose (ltb b 128 || leb 192 b)
        (Yields-bind (array_step-Typed s i b h) (λ s' k. array_loop-Typed s' (i + 1) bs k))
        (array_loop-Typed s i bs h)

  tokenize_array-AllHaveType : Yields (λ ts. AllHaveType ts p) (tokenize_array item value)
  unfolding tokenize_array
  tokenize_array-AllHaveType =
      choose (not (starts_with value b'[') || not (ends_with value b']')) raises (
        choose (count_chars value == 2) (gives tt) (
          Yields-bind (array_loop-Typed array_scan 0 value tt)
            (λ s h. choose s.ignore raises (gives h))))

module _ (x : Externs) (self : TokenizerMethods)
    (sized : (s : Bytes) (n : ℕ)
      → Yields (λ bs. length bs ≡ n) (self.tokenize_fixed_bytes s n)) where
  always : {T : Type 0} (r : Result T) → Yields (λ t. Unit {0}) r
  always panic = unwinds
  always (err e) = raises
  always (ok t) = gives tt

  tokenize-Yields :
      (p : ParamType) (value : Bytes)
      → IsPlain p
      → Yields (λ t. HasType t p) (tokenize x self p value)
  unfolding tokenize tokenize_fixed_array
  tokenize-Yields address value h =
      Yields-bind (always (self.tokenize_address (strip_0x value))) (λ v _. gives tt)
  tokenize-Yields string value h =
      Yields-bind (always (self.tokenize_string value)) (λ v _. gives tt)
  tokenize-Yields bool value h = Yields-bind (always (self.tokenize_bool value)) (λ v _. gives tt)
  tokenize-Yields bytes value h =
      Yields-bind (always (self.tokenize_bytes (strip_0x value))) (λ v _. gives tt)
  tokenize-Yields (fixed_bytes n) value h =
      Yields-bind (sized (strip_0x value) n) (λ v k. gives (k, h.0, h.1))
  tokenize-Yields (uint n) value h =
      Yields-bind (always (self.tokenize_uint value)) (λ v _. gives tt)
  tokenize-Yields (int n) value h = Yields-bind (always (self.tokenize_int value)) (λ v _. gives tt)
  tokenize-Yields (array p) value h =
      Yields-bind
        (tokenize_array-AllHaveType p (tokenize x self p) (λ s. tokenize-Yields p s h) value)
        (λ ts k. gives k)
  tokenize-Yields (fixed_array p n) value h =
      Yields-bind
        (Yields-bind
          (tokenize_array-AllHaveType p (tokenize x self p) (λ s. tokenize-Yields p s h.1) value)
          (λ ts k. elim (Bool-cases (Token.count ts == n)) [
            | inl e ↦ rw e (gives (same_count ts e, h.0, k))
            | inr e ↦ rw e raises
          ]))
        (λ ts k. gives k)
    where
      same_count : (ts : Tokens) → (Token.count ts == n) ≡ true → Token.count ts ≡ n
      same_count ts e = ground arith
  tokenize-Yields (tuple ps) value h = absurd h

decode_sized-Yields :
    (hex_decode : Bytes → Option Bytes) (s : Bytes) (n : ℕ)
    → Yields (λ bs. length bs ≡ n) (decode_sized hex_decode s n)
unfolding decode_sized decode_hex
decode_sized-Yields hex_decode s n =
    elim (hex_decode s)
      as (λ o.
        Yields (λ bs. length bs ≡ n)
          (elim o [ some bs ↦ ok bs | none ↦ err hex ] >>= λ bs.
            if length bs == n then ok bs else err invalid_data)) [
              | none ↦ raises
              | some bs ↦ elim (Bool-cases (length bs == n)) [
                | inl e ↦ rw e (gives (ground arith))
                | inr e ↦ rw e raises
              ]
            ]

-- The token that the strict or the lenient tokenizer returns for a type without tuples, with sizes as
-- Solidity has them, is a value of the type.
pub tokenize-HasType :
    (x : Externs) (d : Decimals) (p : ParamType) (value : Bytes)
    → IsPlain p
    → Yields (λ t. HasType t p) (tokenize x (strict_tokenizer d.hex_decode) p value)
      × Yields (λ t. HasType t p) (tokenize x (lenient_tokenizer x d) p value)
unfolding strict_tokenizer lenient_tokenizer
tokenize-HasType x d p value h = (
  tokenize-Yields x (strict_tokenizer d.hex_decode) (decode_sized-Yields d.hex_decode) p value h,
  tokenize-Yields x (lenient_tokenizer x d) (decode_sized-Yields d.hex_decode) p value h,
)
