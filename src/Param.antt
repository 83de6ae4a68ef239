-- ===== src/Param.antt =====
-- ethabi/src/param.rs, ethabi/src/event_param.rs and ethabi/src/state_mutability.rs: the parameters
-- of a contract's entries.
pub mod Tuples
pub mod Visitors
pub mod Components
pub mod Once
pub mod Written
pub mod WrittenEvents
use ethabi.Base.{Bool, Option, List, [], ◌∷◌, Bytes}
use ethabi.ParamType.{ParamType, ParamTypes, nil, cons}

pub record Param : Type 0 where
  pub name : Bytes
  pub kind : ParamType
  pub internal_type : Option Bytes

pub record EventParam : Type 0 where
  pub name : Bytes
  pub kind : ParamType
  pub indexed : Bool

-- `NonPayable` is the default.
pub data StateMutability : Type 0 where
  pure view non_payable payable : StateMutability

-- `inputs.iter().map(|p| p.kind.clone()).collect()`
unfoldable pub kinds : List Param → ParamTypes
kinds [] = nil
kinds (p ∷ ps) = cons p.kind (kinds ps)
