-- ===== src/Derive/Run.antt =====
-- What the generated fragments (derive/src/lib.rs) do when the Rust program that holds them runs. A
-- fragment that Rust refuses, as one that calls a method that does not exist, is an error here.
use ethabi.Base.{
  ℕ, ◌==◌, Bool, if◌then◌else◌, Option, some, none, List, [], ◌∷◌, length, Bytes, Result, ok, err,
  panic, other, ◌>>=◌, text, text_eq,
}
use ethabi.Token
use ethabi.Token.{Token, Tokens}
use ethabi.Token.Conversions.{
  into_address, into_bytes, into_fixed_bytes, into_int, into_uint, into_bool, into_string,
  into_array, into_fixed_array, into_tuple,
}
use ethabi.ParamType.{ParamType}
use ethabi.Function.{Function}
use ethabi.Derive.{
  TypeExpr, variant, variant_of, boxed, boxed_sized, Expr, ident, token_variant, method, expect,
  mapped, mapped_into, boxed_slice, block, copied, copied_hash, next_items,
}

mutual
  pub data Value : Type 0 where
    token : Token → Value
    address : Bytes → Value
    -- `Vec<u8>`, `[u8; n]`, `Hash` and `&[u8]`.
    byte_vec : Bytes → Value
    byte_array : Bytes → Value
    hash : Bytes → Value
    byte_slice : Bytes → Value
    u256 : ℕ → Value
    bool : Bool → Value
    string : Bytes → Value
    -- `Vec<T>`, `[T; n]`, `Box<[T]>` and an iterator.
    vec : Values → Value
    array : Values → Value
    boxed_items : Values → Value
    iter : Values → Value
    option : Option_ → Value
    -- `ethabi::LogParam`
    log_param : Bytes → Token → Value
    -- `ethabi::Function`
    function : Function → Value

  pub data Option_ : Type 0 where
    present : Value → Option_
    absent : Option_

  pub data Values : Type 0 where
    nil : Values
    cons : Value → Values → Values

-- Rust does not accept the fragment.
abbrev pub refused {ℓ} : {T : Type ℓ} → Result T
refused = err (other (text "does not compile"))

abbrev pub Env : Type 0
Env = List (Bytes × Value)

abbrev pub lookup : Env → Bytes → Result Value
lookup [] x = refused
lookup ((y, v) ∷ env) x = let rest = lookup env x in if text_eq x y then ok v else rest

abbrev pub items : Value → Result Values
items (vec vs) = ok vs
items (array vs) = ok vs
items (iter vs) = ok vs
items _ = refused

-- `Vec<Token>`
abbrev pub tokens_of : Values → Result Tokens
tokens_of nil = ok Token.nil
tokens_of (cons v vs) =
    let rest = tokens_of vs in
    elim v [ token t ↦ rest >>= λ ts. ok (Token.cons t ts) | _ ↦ refused ]

abbrev pub values_of : Tokens → Values
values_of Token.nil = nil
values_of (Token.cons t ts) = cons (token t) (values_of ts)

abbrev optional {ℓ} : {T : Type ℓ} → (T → Value) → Option T → Value
optional f (some t) = option (present (f t))
optional f none = option absent

-- The methods of tokens.
unfoldable pub token_method : Token → Bytes → Result Value
unfolding into_address into_bytes into_fixed_bytes into_int into_uint into_bool into_string
    into_array into_fixed_array into_tuple
token_method t name =
    if text_eq name (text "into_address")
    then ok (optional address (into_address t))
    else if text_eq name (text "into_bytes")
    then ok (optional byte_vec (into_bytes t))
    else if text_eq name (text "into_fixed_bytes")
    then ok (optional byte_vec (into_fixed_bytes t))
    else if text_eq name (text "into_int")
    then ok (optional u256 (into_int t))
    else if text_eq name (text "into_uint")
    then ok (optional u256 (into_uint t))
    else if text_eq name (text "into_bool")
    then ok (optional bool (into_bool t))
    else if text_eq name (text "into_string")
    then ok (optional string (into_string t))
    else if text_eq name (text "into_array")
    then ok (optional (λ ts. vec (values_of ts)) (into_array t))
    else if text_eq name (text "into_fixed_array")
    then ok (optional (λ ts. vec (values_of ts)) (into_fixed_array t))
    else if text_eq name (text "into_tuple")
    then ok (optional (λ ts. vec (values_of ts)) (into_tuple t))
    else refused

-- `next` leaves it to the caller to go on with the rest.
abbrev next_of : Values → Option_
next_of nil = absent
next_of (cons v vs) = present v

-- The others, and the field `value`. `into` has the type that is wanted already.
unfoldable pub value_method : Value → Bytes → Result Value
unfolding token_method
value_method v name = if text_eq name (text "into") then ok v else elim v [
  | token t ↦ token_method t name
  | hash bs ↦ if text_eq name (text "as_ref") then ok (byte_slice bs) else refused
  | byte_array bs ↦ if text_eq name (text "as_ref") then ok (byte_slice bs) else refused
  | byte_slice bs ↦ if text_eq name (text "to_vec") then ok (byte_vec bs) else refused
  | log_param _ t ↦ if text_eq name (text "value") then ok (token t) else refused
  | boxed_items vs ↦ if text_eq name (text "into_vec") then ok (vec vs) else refused
  | iter vs ↦
      if text_eq name (text "collect")
      then ok (vec vs)
      else if text_eq name (text "next")
      then ok (option (next_of vs))
      else refused
  | _ ↦ refused
]

-- `Token::Name(v)`
unfoldable pub make_token : Bytes → Value → Result Value
make_token name (address bs) =
    if text_eq name (text "Address") then ok (token (Token.address bs)) else refused
make_token name (byte_vec bs) =
    if text_eq name (text "Bytes")
    then ok (token (Token.bytes bs))
    else if text_eq name (text "FixedBytes")
    then ok (token (Token.fixed_bytes bs))
    else refused
make_token name (u256 n) =
    if text_eq name (text "Int")
    then ok (token (Token.int n))
    else if text_eq name (text "Uint")
    then ok (token (Token.uint n))
    else refused
make_token name (bool b) = if text_eq name (text "Bool") then ok (token (Token.bool b)) else refused
make_token name (string s) =
    if text_eq name (text "String") then ok (token (Token.string s)) else refused
make_token name (vec vs) =
    if text_eq name (text "Array")
    then (tokens_of vs >>= λ ts. ok (token (Token.array ts)))
    else if text_eq name (text "FixedArray")
    then (tokens_of vs >>= λ ts. ok (token (Token.fixed_array ts)))
    else refused
make_token name _ = refused

abbrev pub each : (Value → Result Value) → Values → Result Values
each f nil = ok nil
each f (cons v vs) = let rest = each f vs in f v >>= λ w. rest >>= λ ws. ok (cons w ws)

abbrev pub expected : Value → Result Value
expected (option (present v)) = ok v
expected (option absent) = panic
expected _ = refused

-- `copy_from_slice` panics where the lengths differ.
abbrev pub copy : ℕ → Value → Result Bytes
copy n (byte_vec bs) = if length bs == n then ok bs else panic
copy n _ = refused

unfoldable pub run : Env → Expr → Result Value
unfolding value_method make_token
run env (ident x) = lookup env x
run env (token_variant name e) = run env e >>= λ v. make_token name v
run env (method e name) = run env e >>= λ v. value_method v name
run env (expect e) = run env e >>= expected
run env (mapped e x body) =
    run env e >>= items >>= λ vs. each (λ v. run ((x, v) ∷ env) body) vs >>= λ ws. ok (iter ws)
run env (mapped_into e) = run env e >>= items >>= λ vs. ok (iter vs)
run env (boxed_slice e) = run env e >>= λ v. elim v [ array vs ↦ ok (boxed_items vs) | _ ↦ refused ]
run env (block x e body) = run env e >>= λ v. run ((x, v) ∷ env) body
run env (copied n e) = run env e >>= copy n >>= λ bs. ok (byte_array bs)
run env (copied_hash n e) = run env e >>= copy n >>= λ bs. ok (hash bs)
-- `next` wants an iterator that is `mut`, and `iter` is not.
run env (next_items e n) = run env e >>= λ v. refused

-- The expressions for types.
abbrev named : Bytes → Bytes → ParamType → Result ParamType → Result ParamType
named name known p rest = if text_eq name known then ok p else rest

unfoldable pub run_type : TypeExpr → Result ParamType
run_type (variant name) = named name (text "Address") ParamType.address (
    named name (text "Bytes") ParamType.bytes (
      named name (text "Bool") ParamType.bool
        (named name (text "String") ParamType.string refused)))
run_type (variant_of name n) = named name (text "Int") (ParamType.int n) (
    named name (text "Uint") (ParamType.uint n)
      (named name (text "FixedBytes") (ParamType.fixed_bytes n) refused))
run_type (boxed name e) = run_type e >>= λ p. named name (text "Array") (ParamType.array p) refused
run_type (boxed_sized name e n) =
    run_type e >>= λ p. named name (text "FixedArray") (ParamType.fixed_array p n) refused
