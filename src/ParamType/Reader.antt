-- ===== src/ParamType/Reader.antt =====
-- ethabi/src/param_type/reader.rs: parameter types from their names.
pub mod Cuts
pub mod Kept
pub mod Rounds
pub mod Brackets
pub mod Printed
use ethabi.Base.{
  ℕ, zero, suc, ◌+◌, ◌-◌, Bool, true, false, not, ◌&&◌, ◌||◌, ◌==◌, ltb, leb, if◌then◌else◌, Option,
  some, none, List, [], ◌∷◌, ◌++◌, length, take, drop, Bytes, Result, ok, err, panic, invalid_name,
  parse_int, ◌>>=◌, ok_or, map_ok, text, text_eq, parse_usize,
}
use ethabi.ParamType.{
  ParamType, ParamTypes, address, bytes, bool, string, int, uint, fixed_bytes, array, fixed_array,
  tuple, nil, cons, append,
}
use ethabi.Tokenizer.{count_chars, str_slice, starts_with, ends_with}

-- `types.push(t)`
abbrev pub push_type : ParamTypes → ParamType → ParamTypes
push_type ps p = append ps (cons p nil)

-- `subtuples[depth].push(t)`: an index out of range panics.
unfoldable pub push_at : List ParamTypes → ℕ → ParamType → Result (List ParamTypes)
push_at [] depth p = panic
push_at (ps ∷ pss) zero p = ok (push_type ps p ∷ pss)
push_at (ps ∷ pss) (suc depth) p = map_ok (λ rest. ps ∷ rest) (push_at pss depth p)

-- `mem::take(&mut subtuples[depth])`
unfoldable pub take_at : List ParamTypes → ℕ → Result (List ParamTypes × ParamTypes)
take_at [] depth = panic
take_at (ps ∷ pss) zero = ok (nil ∷ pss, ps)
take_at (ps ∷ pss) (suc depth) = map_ok (λ r. (ps ∷ r.0, r.1)) (take_at pss depth)

-- The characters in front of the next comma or closing parenthesis.
unfoldable pub trailing : Bytes → ℕ
trailing [] = 0
trailing (b ∷ bs) =
    let rest = trailing bs in
    if (b == b',') || (b == b')') then 0 else if ltb b 128 || leb 192 b then suc rest else rest

-- The variables of the loop. `nested` never stays below 0, where the loop returns. `skip` counts the
-- characters that the inner loop has consumed.
pub record ReadScan : Type 0 where
  pub subtypes : ParamTypes
  pub subtuples : List ParamTypes
  pub nested : ℕ
  pub top_level_paren_open : ℕ
  pub last_item : ℕ
  pub skip : ℕ

abbrev pub read_scan : ReadScan
read_scan = record {
  subtypes = nil;
  subtuples = [];
  nested = 0;
  top_level_paren_open = 0;
  last_item = 1;
  skip = 0;
}

-- `reader` is `Reader::read` for the parts of the name.
module _ (reader : Bytes → Result ParamType) (name : Bytes) where
  unfoldable pub opens : ReadScan → ℕ → ReadScan
  opens s pos =
      if ltb 0 s.nested
      then record s {
        top_level_paren_open = pos;
        nested = s.nested + 1;
        subtuples = s.subtuples ++ (nil ∷ []);
        last_item = pos + 1;
      }
      else record s { top_level_paren_open = pos; nested = s.nested + 1 }

  -- A tuple inside the tuple, with the brackets behind it.
  unfoldable pub ends_inner : ReadScan → ℕ → ℕ → ℕ → Result ReadScan
  unfolding str_slice take_at
  ends_inner s nested pos more = do
    inner_tuple ← str_slice name s.top_level_paren_open (pos + more + 1)
    subtype ← reader inner_tuple
    let s' = record s { nested = nested; last_item = pos + more + 1; skip = more }
    if ltb 1 nested
        then (take_at s.subtuples (nested - 2) >>= λ r. ok (record s' {
          subtuples = r.0;
          subtypes = push_type s.subtypes (tuple (push_type r.1 subtype));
        }))
        else ok (record s' { subtypes = push_type s.subtypes subtype })

  unfoldable pub closes : ReadScan → ℕ → Bytes → Result ReadScan
  unfolding str_slice ends_inner trailing
  closes s pos rest =
      if s.nested == 0
      then err (invalid_name name)
      else (str_slice name s.last_item pos >>= λ sub.
          if length sub == 0
          then ok (record s { nested = s.nested - 1; last_item = pos + 1 })
          else if s.nested == 1
          then (reader sub >>= λ subtype. ok (record s {
            nested = 0;
            subtypes = push_type s.subtypes subtype;
            last_item = pos + 1;
          }))
          else ends_inner s (s.nested - 1) pos (trailing rest))

  unfoldable pub separates : ReadScan → ℕ → Result ReadScan
  unfolding str_slice push_at
  separates s pos = do
    sub ← str_slice name s.last_item pos
    if length sub == 0
        then ok (record s { last_item = pos + 1 })
        else if s.nested == 1
        then (reader sub >>= λ subtype.
            ok (record s { subtypes = push_type s.subtypes subtype; last_item = pos + 1 }))
        else if ltb 1 s.nested
        then (reader sub >>= λ subtype. push_at s.subtuples (s.nested - 2) subtype >>= λ subtuples.
            ok (record s { subtuples = subtuples; last_item = pos + 1 }))
        else ok s

  -- One round of the loop, for the character `c` at `pos`, with `rest` behind it.
  unfoldable pub read_step : ReadScan → ℕ → ℕ → Bytes → Result ReadScan
  unfolding opens closes separates
  read_step s pos c rest =
      if c == b'('
      then ok (opens s pos)
      else if c == b')'
      then closes s pos rest
      else if c == b','
      then separates s pos
      else ok s

  unfoldable pub read_loop : ReadScan → ℕ → Bytes → Result ReadScan
  unfolding read_step
  read_loop s pos [] = ok s
  read_loop s pos (c ∷ rest) =
      if ltb c 128 || leb 192 c
      then (if s.skip == 0
          then (read_step s pos c rest >>= λ s'. read_loop s' (pos + 1) rest)
          else read_loop (record s { skip = s.skip - 1 }) (pos + 1) rest)
      else read_loop s pos rest

  unfoldable pub read_tuple : Result ParamType
  unfolding read_loop starts_with
  read_tuple =
      if not (starts_with name b'(')
      then err (invalid_name name)
      else (read_loop read_scan 0 name >>= λ s. ok (tuple s.subtypes))

  -- `&name[..count_chars - less]`: a difference below 0 panics.
  unfoldable pub front : ℕ → Result Bytes
  unfolding str_slice
  front less =
      if ltb (count_chars name) less then panic else str_slice name 0 (count_chars name - less)

-- What stands between the last opening bracket and the last character.
unfoldable pub number_part : Bytes → Bytes → Bytes
number_part acc [] = acc
number_part acc (b ∷ []) = acc
number_part acc (b ∷ c ∷ cs) =
    if b == b'[' then number_part [] (c ∷ cs) else number_part (acc ++ (b ∷ [])) (c ∷ cs)

unfoldable pub read_array : (Bytes → Result ParamType) → Bytes → Result ParamType
unfolding front number_part
read_array reader name =
    let num = number_part [] name in
    if length num == 0
    then (front reader name 2 >>= λ sub. map_ok array (reader sub))
    else (ok_or (parse_usize num) parse_int >>= λ len. front reader name (length num + 2) >>= λ sub.
        map_ok (λ subtype. fixed_array subtype len) (reader sub))

-- `s.starts_with(prefix)`
abbrev pub has_prefix : Bytes → Bytes → Bool
has_prefix s prefix = text_eq (take (length prefix) s) prefix

-- `s[n..].parse().map_err(Error::ParseInt)`
abbrev pub parse_rest : Bytes → ℕ → Result ℕ
parse_rest s n = ok_or (parse_usize (drop n s)) parse_int

unfoldable pub read_word : Bytes → Result ParamType
read_word s =
    if text_eq s (text "address")
    then ok address
    else if text_eq s (text "bytes")
    then ok bytes
    else if text_eq s (text "bool")
    then ok bool
    else if text_eq s (text "string")
    then ok string
    else if text_eq s (text "int")
    then ok (int 256)
    else if text_eq s (text "tuple")
    then ok (tuple nil)
    else if text_eq s (text "uint")
    then ok (uint 256)
    else if has_prefix s (text "int")
    then map_ok int (parse_rest s 3)
    else if has_prefix s (text "uint")
    then map_ok uint (parse_rest s 4)
    else if has_prefix s (text "bytes")
    then map_ok fixed_bytes (parse_rest s 5)
    else ok (uint 8)

-- With `stop` as the answer of a reader that has no rounds left.
unfoldable pub read_within : Result ParamType → ℕ → Bytes → Result ParamType
unfolding read_tuple read_array read_word ends_with
read_within stop zero name = stop
read_within stop (suc rounds) name =
    if ends_with name b')'
    then read_tuple (read_within stop rounds) name
    else if ends_with name b']'
    then read_array (read_within stop rounds) name
    else read_word name

unfoldable pub read : Bytes → Result ParamType
unfolding read_within
read name = read_within panic (length name + 1) name
