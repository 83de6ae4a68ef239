-- ===== src/ParamType/Outline.antt =====
-- A type as its JSON name has it: the fields of a tuple stand elsewhere (`Writer::write_for_abi`
-- without contents, ethabi/src/param_type/writer.rs).
use ethabi.Base.{◌^◌, ◌<◌}
use ethabi.ParamType.{
  ParamType, ParamTypes, int, uint, array, fixed_bytes, fixed_array, tuple, nil, cons,
}

-- The type with no fields in its tuple.
abbrev pub outline : ParamType → ParamType
outline (array p) = array (outline p)
outline (fixed_array p n) = fixed_array (outline p) n
outline (tuple ps) = tuple nil
outline p = p

-- All sizes fit a `usize`.
abbrev mutual
  pub IsSized : ParamType → Type 0
  IsSized (int n) = n < 2 ^ 64
  IsSized (uint n) = n < 2 ^ 64
  IsSized (fixed_bytes n) = n < 2 ^ 64
  IsSized (array p) = IsSized p
  IsSized (fixed_array p n) = (n < 2 ^ 64) × IsSized p
  IsSized (tuple ps) = AreSized ps
  IsSized _ = Unit {0}

  pub AreSized : ParamTypes → Type 0
  AreSized nil = Unit {0}
  AreSized (cons p ps) = IsSized p × AreSized ps
