-- ===== src/Tests.antt =====
-- Concrete runs of the model, and the theorems at concrete inputs.
mod Samples
mod Calls
mod Logs
mod Contracts
mod Texts
mod Params
mod Decimals
mod Cli
mod Derived
mod Generated
mod Types
mod Codec
