-- ===== src/Tests/Generated.antt =====
-- The code that is generated for a contract and for the outputs of a function.
use ethabi.Base.{
  ℕ, ◌-◌, leb, ◌&&◌, if◌then◌else◌, true, false, some, none, List, [], ◌∷◌, ◌++◌, map, Bytes,
  Result, panic, ◌>>=◌, text, ◌≢◌, refl,
}
use ethabi.ParamType.{ParamType}
use ethabi.Param.{payable}
use ethabi.Function
use ethabi.Function.{Function}
use ethabi.Derive.Run
use ethabi.Derive.Run.{Value, Values, Env, run, run_type, lookup, refused}
use ethabi.Derive.Parts.{input_name}
use ethabi.Contract.{Contract, function_, event_, fallback_, visit_seq, all_functions, all_events}
use ethabi.Derive.Contracts.{IsGenerated}
use ethabi.Tests.Derived.{crates, send, renamed}

abbrev read_all : Function
read_all = record {
  name = text "read_all";
  inputs = [];
  outputs =
      record { name = []; kind = ParamType.uint 256; internal_type = none }
      ∷ (record { name = []; kind = ParamType.string; internal_type = none }
          ∷ (record { name = []; kind = ParamType.array ParamType.bool; internal_type = none }
              ∷ []));
  constant = some true;
  state_mutability = payable;
}

abbrev all_values : Values
all_values = Run.cons (Run.u256 69) (
    Run.cons (Run.string (0x68 ∷ 0x69 ∷ []))
      (Run.cons (Run.vec (Run.cons (Run.bool true) (Run.cons (Run.bool false) Run.nil))) Run.nil))

abbrev entries : Contract
entries = visit_seq (function_ send ∷ (fallback_ ∷ (event_ renamed ∷ [])))

entries-IsGenerated : IsGenerated crates entries
unfolding visit_seq all_functions all_events ethabi.Contract.constructor_of ethabi.Base.flatten
    input_name ethabi.Derive.Parts.rust_variable ethabi.Base.text_eq ethabi.Base.decimal
    ethabi.Base.digits
entries-IsGenerated =
    (tt, ((((refl, (refl, tt)), (tt, (tt, tt))), (tt, tt)), tt), (((refl, tt), (tt, tt)), tt))
