-- ===== src/Derive.antt =====
-- derive/src/lib.rs: the fragments of Rust that the code generator emits for a parameter type. A
-- `TokenStream` is the syntax tree of the fragment; `Derive/Run` says what a fragment does.
pub mod Run
pub mod Keywords
pub mod Tokens
pub mod Values
pub mod Parts
pub mod EventParts
pub mod Topics
pub mod Calls
pub mod Emitted
pub mod Idents
pub mod Recreated
pub mod RecreatedEvents
pub mod Demands
pub mod Contracts
pub mod Outputs
pub mod Inputs
use ethabi.Base.{
  ℕ, zero, suc, ◌+◌, ◌==◌, Bool, true, false, if◌then◌else◌, Option, none, List, [], ◌∷◌, ◌++◌,
  length, Bytes, Result, ok, panic, ◌>>=◌, text, text_eq, decimal,
}
use ethabi.ParamType.{
  ParamType, address, bytes, bool, string, int, uint, fixed_bytes, array, fixed_array, tuple,
}
use ethabi.Param.{Param}

-- A type of Rust.
pub data RustType : Type 0 where
  -- A path, as `ethabi::Address`, `bool` or `()`.
  path : Bytes → RustType
  -- `[u8; n]`
  byte_array : ℕ → RustType
  -- `Vec<t>`
  vec : RustType → RustType
  -- `[t; n]`
  sized : RustType → ℕ → RustType

-- An expression for a `ParamType`, as `ethabi::ParamType::Array(Box::new(...))`.
pub data TypeExpr : Type 0 where
  variant : Bytes → TypeExpr
  variant_of : Bytes → ℕ → TypeExpr
  boxed : Bytes → TypeExpr → TypeExpr
  boxed_sized : Bytes → TypeExpr → ℕ → TypeExpr

-- An expression for a value.
pub data Expr : Type 0 where
  ident : Bytes → Expr
  -- `ethabi::Token::Name(e)`
  token_variant : Bytes → Expr → Expr
  -- `e.name()`
  method : Expr → Bytes → Expr
  -- `e.expect(INTERNAL_ERR)`
  expect : Expr → Expr
  -- `e.into_iter().map(|x| body)`
  mapped : Expr → Bytes → Expr → Expr
  -- `e.into_iter().map(Into::into)`
  mapped_into : Expr → Expr
  -- `Box::new(e) as Box<[_]>`
  boxed_slice : Expr → Expr
  -- `{ let x = e; body }`
  block : Bytes → Expr → Expr → Expr
  -- `{ let mut result = [0u8; n]; let v = e; result.copy_from_slice(&v); result }`, and with
  -- `ethabi::Hash::from(result)` at its end.
  copied : ℕ → Expr → Expr
  copied_hash : ℕ → Expr → Expr
  -- `{ let iter = e; [iter.next(), ...] }`, with the number of items.
  next_items : Expr → ℕ → Expr

-- `unimplemented!("Tuples are not supported. ...")` is a panic.
unfoldable pub to_syntax_string : ParamType → Result TypeExpr
to_syntax_string address = ok (variant (text "Address"))
to_syntax_string bytes = ok (variant (text "Bytes"))
to_syntax_string (int n) = ok (variant_of (text "Int") n)
to_syntax_string (uint n) = ok (variant_of (text "Uint") n)
to_syntax_string bool = ok (variant (text "Bool"))
to_syntax_string string = ok (variant (text "String"))
to_syntax_string (array p) = to_syntax_string p >>= λ q. ok (boxed (text "Array") q)
to_syntax_string (fixed_bytes n) = ok (variant_of (text "FixedBytes") n)
to_syntax_string (fixed_array p n) =
    to_syntax_string p >>= λ q. ok (boxed_sized (text "FixedArray") q n)
to_syntax_string (tuple ps) = panic

unfoldable pub rust_type : ParamType → Result RustType
rust_type address = ok (path (text "ethabi::Address"))
rust_type bytes = ok (path (text "ethabi::Bytes"))
rust_type (fixed_bytes n) = ok (if n == 32 then path (text "ethabi::Hash") else byte_array n)
rust_type (int n) = ok (path (text "ethabi::Int"))
rust_type (uint n) = ok (path (text "ethabi::Uint"))
rust_type bool = ok (path (text "bool"))
rust_type string = ok (path (text "String"))
rust_type (array p) = rust_type p >>= λ t. ok (vec t)
rust_type (fixed_array p n) = rust_type p >>= λ t. ok (sized t n)
rust_type (tuple ps) = panic

unfoldable pub from_template_param : ParamType → Bytes → Expr
from_template_param (array p) name = method (mapped_into (ident name)) (text "collect")
from_template_param (fixed_array p n) name =
    method
      (mapped_into (method (boxed_slice (method (ident name) (text "into"))) (text "into_vec")))
      (text "collect")
from_template_param p name = method (ident name) (text "into")

unfoldable pub to_token : Expr → ParamType → Result Expr
to_token name address = ok (token_variant (text "Address") name)
to_token name bytes = ok (token_variant (text "Bytes") name)
to_token name (fixed_bytes n) =
    ok (token_variant (text "FixedBytes") (method (method name (text "as_ref")) (text "to_vec")))
to_token name (int n) = ok (token_variant (text "Int") name)
to_token name (uint n) = ok (token_variant (text "Uint") name)
to_token name bool = ok (token_variant (text "Bool") name)
to_token name string = ok (token_variant (text "String") name)
to_token name (array p) = to_token (ident (text "inner")) p >>= λ inner_loop. ok (
    block (text "v") (method (mapped name (text "inner") inner_loop) (text "collect"))
      (token_variant (text "Array") (ident (text "v"))))
to_token name (fixed_array p n) = to_token (ident (text "inner")) p >>= λ inner_loop. ok (
    block (text "v") (method (mapped name (text "inner") inner_loop) (text "collect"))
      (token_variant (text "FixedArray") (ident (text "v"))))
to_token name (tuple ps) = panic

unfoldable pub from_token : ParamType → Expr → Result Expr
from_token address token = ok (expect (method token (text "into_address")))
from_token bytes token = ok (expect (method token (text "into_bytes")))
from_token (fixed_bytes n) token =
    let v = expect (method token (text "into_fixed_bytes")) in
    ok (if n == 32 then copied_hash 32 v else copied n v)
from_token (int n) token = ok (expect (method token (text "into_int")))
from_token (uint n) token = ok (expect (method token (text "into_uint")))
from_token bool token = ok (expect (method token (text "into_bool")))
from_token string token = ok (expect (method token (text "into_string")))
from_token (array p) token = from_token p (ident (text "inner")) >>= λ inner_loop. ok (
    method (mapped (expect (method token (text "into_array"))) (text "inner") inner_loop)
      (text "collect"))
from_token (fixed_array p n) token = from_token p (ident (text "inner")) >>= λ inner_loop.
    ok (next_items (mapped (expect (method token (text "to_array"))) (text "inner") inner_loop) n)
from_token (tuple ps) token = panic
