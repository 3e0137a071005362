-- ===== src/Core.antt =====
-- packages/core: documents, results, the verdict, and the registry of signing keys.
pub mod Document
pub mod Verdict
pub mod Signer
pub mod Trust
pub mod TrustPolicy
pub mod Json
pub mod DidWeb
pub mod Descriptor
pub mod Claims
pub mod KeyLifecycle
