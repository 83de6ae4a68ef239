-- ===== src/Derive/Outputs.antt =====
-- The generated `decode_output` (derive/src/function.rs) at work.
use ethabi.Base.{
  ℕ, Option, some, none, List, [], ◌∷◌, map, All, Bytes, Result, ok, panic, ◌>>=◌, text, sym,
}
use ethabi.Externs.{Externs}
use ethabi.Param.{Param}
use ethabi.Token
use ethabi.Token.{Token, Tokens}
use ethabi.Function
use ethabi.Function.{Function}
use ethabi.Derive.{Expr}
use ethabi.Derive.Run
use ethabi.Derive.Run.{Value, Values, run, values_of, refused}
use ethabi.Derive.Tokens.{Carries}
use ethabi.Derive.Values.{IsReadable, readable_emitted}
use ethabi.Derive.Parts.{
  Crates, Decoding, nothing, first, in_turn, FunctionInterface, function_expr,
}
use ethabi.Derive.Emitted.{AreEmitted}
use ethabi.Derive.Recreated.{run_function}

abbrev rest_of : Values → Values
rest_of Run.nil = Run.nil
rest_of (Run.cons v vs) = vs

-- The items of the tuple in order; each of them asks the iterator for one token.
unfoldable pub run_in_turn : Values → List Expr → Result Values
unfolding run
run_in_turn out [] = ok Run.nil
run_in_turn out (e ∷ es) =
    let rest = run_in_turn (rest_of out) es in
    run ((text "out", Run.iter out) ∷ []) e >>= λ v. rest >>= λ vs. ok (Run.cons v vs)

-- `into_iter().next().expect(INTERNAL_ERR)`
abbrev pub next_token : Tokens → Result Token
next_token Token.nil = panic
next_token (Token.cons t ts) = ok t

-- `decode` of the generated `Decoder`: the components of what it returns.
unfoldable pub run_decode : Externs → Function → Bytes → Decoding → Result Values
unfolding run run_in_turn Function.decode_output
run_decode x f output nothing = ok Run.nil
run_decode x f output (first e) = do
  tokens ← Function.decode_output x f output
  out ← next_token tokens
  v ← run ((text "out", Run.token out) ∷ []) e
  ok (Run.cons v Run.nil)
run_decode x f output (in_turn es) =
    Function.decode_output x f output >>= λ tokens. run_in_turn (values_of tokens) es

-- The generated `decode_output`.
unfoldable pub run_decode_output : Externs → Crates → FunctionInterface → Bytes → Result Values
unfolding run_decode function_expr
run_decode_output x crates g output =
    function_expr crates g >>= run_function >>= λ f. run_decode x f output g.implementation

-- Without tuples and arrays of fixed size.
abbrev pub AreReadable : List Param → Type 0
AreReadable ps = All (λ (p : Param). IsReadable p.kind) ps

-- Values of the types of the parameters, with their tokens.
abbrev pub Returned : List Param → Values → Tokens → Type 0
Returned [] Run.nil Token.nil = Unit {0}
Returned (p ∷ ps) (Run.cons v vs) (Token.cons t ts) = Carries p.kind v t × Returned ps vs ts
Returned _ _ _ = ⊥

pub readable_outputs : (ps : List Param) → AreReadable ps → AreEmitted ps
readable_outputs [] h = tt
readable_outputs (p ∷ ps) h = (readable_emitted p.kind h.0, readable_outputs ps h.1)
