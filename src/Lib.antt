-- ===== src/Lib.antt =====
-- A model of ethabi, which encodes and decodes the values of Ethereum contract calls, and of its
-- correctness.
--
-- The parts of the program and the files that model them:
--   Base, Base/*       what the parts share: tests on numbers, lists, texts, `Result`, and Rust's
--                      `BTreeMap<String, V>` as pairs ordered by key.
--   Externs            the functions of other crates that are called: `U256` and its words,
--                      Keccak-256, and whether memory can be reserved.
--   Word               ethabi/src/util.rs `pad_u32` and the readers at the top of
--                      ethabi/src/decoder.rs (`as_usize`, `peek`, `take_bytes`, ...).
--   Utf8               `String::from_utf8_lossy`, which decoder.rs applies to strings.
--   ParamType          ethabi/src/param_type/param_type.rs; ParamType/Writer is writer.rs
--                      and ParamType/Reader reader.rs.
--   Token              ethabi/src/token/token.rs: tokens, `type_check`, `types_check`. Token/Accepted
--                      describes what the check accepts.
--   Encoder            ethabi/src/encoder.rs, function by function; Encoder/Spec is the encoding of
--                      the ABI specification, with heads and tails, that it is compared with.
--   Decoder            ethabi/src/decoder.rs, function by function.
--   RoundTrip          encoder and decoder together.
--   Signature, Param, Function, AbiError, Constructor
--                      ethabi/src/signature.rs, param.rs with event_param.rs and
--                      state_mutability.rs, function.rs, error.rs and constructor.rs.
--   Json, Param/*      the JSON values that serde hands over, and the visitors and serializers of
--                      param.rs, event_param.rs, tuple_param.rs and param_type/deserialize.rs:
--                      Param/Tuples for components, Param/Visitors for parameters.
--   Calls              the pattern that function.rs, error.rs and constructor.rs share.
--   Filter, Event      ethabi/src/filter.rs, and event.rs with log.rs. Event/Emitted describes the
--                      log that a contract emits.
--   Contract           ethabi/src/contract.rs and operation.rs: entries by name.
--   Tokenizer          ethabi/src/token/mod.rs `tokenize_array`; Tokenizer/Structs is
--                      `tokenize_struct` and `tokenize`, Tokenizer/Strict strict.rs and
--                      Tokenizer/Lenient lenient.rs. Token/Conversions is
--                      `Display` and the `into_*` methods of token.rs.
--   Cli                cli/src/main.rs `load_function` and `load_event`; Cli/Commands is the commands.
--   Derive             derive/src/lib.rs: the fragments of Rust that the macro emits, as syntax trees;
--                      Derive/Run is what they do when they run, Derive/Parts function.rs
--                      and constructor.rs, Derive/EventParts event.rs and contract.rs of derive/src,
--                      Derive/Inputs and Derive/Outputs the generated functions of a function,
--                      compiled for themselves; Derive/Idents the names they are made of.
--   Tests/*            runs at concrete inputs, and the theorems applied there.
--
-- A function, an error, an event or a constructor asks `types_check` whether the tokens fit and calls
-- `encode`, or calls `decode` with the types of its parameters; a contract finds these by name.
--
-- How the code is read:
--   - A `Vec<u8>`, a `Hash`, an `Address` and a `String` (its UTF-8 bytes) are lists of numbers below
--     256. A `U256` is its value.
--   - `Result` has a third outcome, `panic`, for an index out of range or `panic!`. `u32` and `usize`
--     (64 bits) wrap around as in a release build.
--   - A method that changes its receiver returns the changed value. A `Vec<Token>` inside a token is
--     the data type `Tokens`, and likewise `ParamTypes`.
--   - Loops are recursion on the tokens, types or bytes they run over. `digits` prints with 19
--     rounds, enough for the 20 digits of a `usize`. `read` takes one round more than its name has
--     bytes, enough since each part that is read is shorter.
--   - What heck and proc_macro2 do with names is a parameter, `Crates`; `syn::Ident::new` panics where
--     `is_ident` says no. Code that Rust refuses is an error of the runs in Derive.
--   - Theorems on encoding take encodings shorter than 2 ^ 32 bytes, since offsets and lengths are
--     written as `u32`; those on decoding any input take fewer than 2 ^ 62 bytes, more than an
--     address space has.
--
-- Not modelled: serde, the text of JSON and the serde derives of the entries, the parsing of command
-- line arguments, the macro's attributes, its templates for constructors, filters and logs, and memory allocation
-- beyond the test in `try_reserve_exact`.
pub mod Base
pub mod Externs
pub mod Word
pub mod Utf8
pub mod ParamType
pub mod Token
pub mod Encoder
pub mod Decoder
pub mod RoundTrip
pub mod Signature
pub mod Json
pub mod Param
pub mod Calls
pub mod Function
pub mod AbiError
pub mod Constructor
pub mod Filter
pub mod Event
pub mod Contract
pub mod Tokenizer
mod Tests
pub mod Cli
pub mod Derive
