-- ===== src/Tests/Types.antt =====
-- Parameter types from their names.
use ethabi.Base.{
  arith, ℕ, ◌≡◌, refl, Bytes, Result, ok, err, panic, invalid_name, parse_int, if◌then◌else◌, text,
}
use ethabi.ParamType.{ParamType, nil, cons}
use ethabi.Tokenizer.{ends_with}
use ethabi.ParamType.Reader.{read_within, read, read_tuple, read_array, read_word}
use ethabi.ParamType.Reader.Rounds.{read_within-ends}
use ethabi.ParamType.Reader.Printed.{read-write}
use ethabi.ParamType.Writer.{write}

sample_read :
    read (text "(uint256,(bool,bytes4)[2],string)[]")
    ≡ ok (
        ParamType.array (
          ParamType.tuple (
            cons (ParamType.uint 256) (
              cons
                (ParamType.fixed_array
                  (ParamType.tuple (cons ParamType.bool (cons (ParamType.fixed_bytes 4) nil)))
                  2)
                (cons ParamType.string nil)))))
unfolding read ethabi.Base.text_eq ethabi.Base.parse_usize
sample_read = refl

-- A tuple that begins with a tuple, behind another field: the part that is cut out for it begins at
-- the innermost parenthesis.
nested_read :
    read (text "(bool,((int8,string),address))")
    ≡ err (invalid_name (text "(int8,string),address)"))
unfolding read ethabi.Base.text_eq ethabi.Base.parse_usize
nested_read = refl

-- A bracket alone makes the length of the rest negative.
bracket_read : read (text "]") ≡ panic
unfolding read ethabi.Base.text_eq ethabi.Base.parse_usize
bracket_read = refl

read_within-ends_example :
    (read_within (ok ParamType.bool) 9 (text "bool[3]") ≡ read (text "bool[3]"))
    × (read (text "bool[3]") ≡ (
        if ends_with (text "bool[3]") b')'
        then read_tuple read (text "bool[3]")
        else if ends_with (text "bool[3]") b']'
        then read_array read (text "bool[3]")
        else read_word (text "bool[3]")))
read_within-ends_example = read_within-ends (ok ParamType.bool) 9 (text "bool[3]") (omega arith)

-- bytes4[][3]
abbrev matrix : ParamType
matrix = ParamType.fixed_array (ParamType.array (ParamType.fixed_bytes 4)) 3

read-write_example : read (write matrix) ≡ ok matrix
read-write_example = read-write matrix (omega arith, omega arith)
