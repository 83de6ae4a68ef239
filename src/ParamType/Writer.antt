-- ===== src/ParamType/Writer.antt =====
-- ethabi/src/param_type/writer.rs: the text of a parameter type.
use ethabi.Base.{Bool, true, if◌then◌else◌, List, [], ◌∷◌, ◌++◌, Bytes, text, join, decimal}
use ethabi.ParamType.{
  ParamType, ParamTypes, address, bytes, int, uint, bool, string, array, fixed_bytes, fixed_array,
  tuple, nil, cons,
}

unfoldable mutual
  pub write_for_abi : ParamType → Bool → Bytes
  write_for_abi address contents = text "address"
  write_for_abi bytes contents = text "bytes"
  write_for_abi (fixed_bytes len) contents = text "bytes" ++ decimal len
  write_for_abi (int len) contents = text "int" ++ decimal len
  write_for_abi (uint len) contents = text "uint" ++ decimal len
  write_for_abi bool contents = text "bool"
  write_for_abi string contents = text "string"
  write_for_abi (fixed_array p len) contents =
      write_for_abi p contents ++ (text "[" ++ (decimal len ++ text "]"))
  write_for_abi (array p) contents = write_for_abi p contents ++ text "[]"
  write_for_abi (tuple ps) contents =
      let formatted = join (text ",") (write_all_for_abi ps contents) in
      if contents then text "(" ++ (formatted ++ text ")") else text "tuple"

  -- `params.iter().map(..).collect::<Vec<String>>()`
  pub write_all_for_abi : ParamTypes → Bool → List Bytes
  write_all_for_abi nil contents = []
  write_all_for_abi (cons p ps) contents = write_for_abi p contents ∷ write_all_for_abi ps contents

unfoldable pub write : ParamType → Bytes
unfolding write_for_abi
write p = write_for_abi p true

-- `params.iter().map(Writer::write).collect::<Vec<String>>()`
unfoldable pub write_all : ParamTypes → List Bytes
unfolding write
write_all nil = []
write_all (cons p ps) = write p ∷ write_all ps
