-- ===== src/Verifier.antt =====
-- packages/verifier and apps/verifier-web: what happens around a verification.
pub mod Input
pub mod Lookup
pub mod RateLimit
pub mod TrustStore
pub mod Normalize
pub mod Facade
