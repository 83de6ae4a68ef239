-- ===== src/Derive/Inputs.antt =====
-- The generated `encode_input` and `call` (derive/src/function.rs), from the contract's function on.
use ethabi.Base.{false, List, ◌∷◌, All, text, text_eq, Bytes, Result, ok, err, panic, ◌>>=◌, ◌≡◌}
use ethabi.Externs.{Externs}
use ethabi.Token
use ethabi.Param.{Param}
use ethabi.Derive.{Expr}
use ethabi.Derive.Run
use ethabi.Function
use ethabi.Function.{Function}
use ethabi.Derive.Run.{Env}
use ethabi.Derive.Parts.{Crates, FunctionInterface, function_expr}
use ethabi.Derive.Recreated.{run_function}
use ethabi.Derive.Calls.{run_tokens}

-- `expect(INTERNAL_ERR)` of a `Result`.
abbrev pub expect_ok {ℓ} : {T : Type ℓ} → Result T → Result T
expect_ok (ok v) = ok v
expect_ok (err e) = panic
expect_ok panic = panic

-- `f.encode_input(&tokens).expect(INTERNAL_ERR)` behind `let f = function()`, which hides an argument of
-- that name.
unfoldable pub encode_with : Externs → Function → List Expr → Env → Result Bytes
unfolding Function.encode_input
encode_with x f tokenize env = do
  tokens ← run_tokens ((text "f", Run.function f) ∷ env) tokenize
  expect_ok (Function.encode_input x f tokens)

-- The generated `encode_input`, with its arguments in the environment.
unfoldable pub run_encode_input : Externs → Crates → FunctionInterface → Env → Result Bytes
unfolding function_expr encode_with
run_encode_input x crates g env = do
  f ← function_expr crates g >>= run_function
  encode_with x f g.tokenize env

-- The generated `call`: the bytes, and the function that its `Decoder` holds.
unfoldable pub run_call : Externs → Crates → FunctionInterface → Env → Result (Bytes × Function)
unfolding function_expr encode_with
run_call x crates g env = do
  f ← function_expr crates g >>= run_function
  encoded ← encode_with x f g.tokenize env
  ok (encoded, f)

-- No argument is named as the local variable of the generated code.
abbrev pub AreOthers : List Bytes → Type 0
AreOthers names = All (λ n. text_eq n (text "f") ≡ false) names
