-- ===== src/Derive/Contracts.antt =====
-- The contracts that code is generated for (derive/src/contract.rs): those on which the generator does
-- not panic.
use ethabi.Base.{false, Option, some, none, List, All}
use ethabi.Param.{Param}
use ethabi.Function.{Function}
use ethabi.Event.{Event}
use ethabi.Constructor.{Constructor}
use ethabi.Contract.{Contract, all_functions, all_events, constructor_of}
use ethabi.Derive.Parts.{Crates}
use ethabi.Derive.Idents.{AreIdents, input_texts, event_texts}
use ethabi.Derive.Emitted.{AreEmitted}
use ethabi.Derive.RecreatedEvents.{AreEmittedEvents}

-- Parameters whose names make identifiers and whose types have no tuples.
abbrev pub HaveIdents : Crates → List Param → Type 0
HaveIdents crates ps = AreIdents crates (input_texts crates 0 ps) × AreEmitted ps

abbrev pub MayHaveIdents : Crates → Option Constructor → Type 0
MayHaveIdents crates (some k) = HaveIdents crates k.inputs
MayHaveIdents crates none = Unit {0}

abbrev pub IsGenerated : Crates → Contract → Type 0
IsGenerated crates c =
    MayHaveIdents crates (constructor_of c)
    × All (λ (f : Function). HaveIdents crates f.inputs × AreEmitted f.outputs) (all_functions c)
    × All
        (λ (e : Event).
          AreIdents crates (event_texts crates false 0 e.inputs) × AreEmittedEvents e.inputs)
        (all_events c)
