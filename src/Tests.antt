-- ===== src/Tests.antt =====
-- The properties at concrete inputs.
mod Lock
mod Calls
mod Store
mod Policy
mod Log
mod Rendered
mod Cards
mod Codec
mod Vault
mod Served
mod Ensemble
mod Classify
