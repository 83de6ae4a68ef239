-- ===== src/ParamType.antt =====
-- ethabi/src/param_type/param_type.rs: the types of function and event parameters.
pub mod Writer
pub mod Outline
pub mod Reader
use ethabi.Base.{ℕ, suc, Bool, true, false, ◌&&◌, ◌||◌, ◌==◌}

-- `enum ParamType`. `ParamTypes` is `Vec<ParamType>`. A tuple's fields are a list of the block.
mutual
  pub data ParamType : Type 0 where
    address : ParamType
    bytes : ParamType
    int : ℕ → ParamType
    uint : ℕ → ParamType
    bool : ParamType
    string : ParamType
    array : ParamType → ParamType
    fixed_bytes : ℕ → ParamType
    fixed_array : ParamType → ℕ → ParamType
    tuple : ParamTypes → ParamType

  pub data ParamTypes : Type 0 where
    nil : ParamTypes
    cons : ParamType → ParamTypes → ParamTypes

unfoldable pub is_empty_bytes_valid_encoding : ParamType → Bool
is_empty_bytes_valid_encoding (fixed_bytes len) = len == 0
is_empty_bytes_valid_encoding (fixed_array t len) = len == 0
is_empty_bytes_valid_encoding _ = false

-- `types.iter().all(|t| t.is_empty_bytes_valid_encoding())`
unfoldable pub all_empty_valid : ParamTypes → Bool
unfolding is_empty_bytes_valid_encoding
all_empty_valid nil = true
all_empty_valid (cons t ts) = is_empty_bytes_valid_encoding t && all_empty_valid ts

unfoldable mutual
  pub is_dynamic : ParamType → Bool
  is_dynamic bytes = true
  is_dynamic string = true
  is_dynamic (array t) = true
  is_dynamic (fixed_array t len) = is_dynamic t
  is_dynamic (tuple ts) = any_dynamic ts
  is_dynamic _ = false

  -- `params.iter().any(|param| param.is_dynamic())`
  pub any_dynamic : ParamTypes → Bool
  any_dynamic nil = false
  any_dynamic (cons t ts) = is_dynamic t || any_dynamic ts

-- `params.len()`
abbrev pub count : ParamTypes → ℕ
count nil = 0
count (cons t ts) = suc (count ts)

abbrev pub append : ParamTypes → ParamTypes → ParamTypes
append nil qs = qs
append (cons p ps) qs = cons p (append ps qs)
