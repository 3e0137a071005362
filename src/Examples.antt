-- ===== src/Examples.antt =====
-- Runs of the models on small inputs, and the theorems at concrete inputs.
mod Policy
mod DidWeb
mod Resolver
mod Trust
mod Cbor
mod Base45
mod Der
mod Verdict
mod Keys
mod Cose
mod Seal
mod Status
mod Limits
mod Input
mod Claims
mod Node
mod Verifier
