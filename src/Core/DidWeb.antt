-- ===== src/Core/DidWeb.antt =====
-- packages/core/src/trust-policy.ts from `createDidWebResolver` on: the resolver of did:web keys.
pub mod Address
pub mod Ipv6
pub mod Private
pub mod Blocks
pub mod Groups
pub mod Mapped
pub mod Embedded
pub mod Encodings
pub mod Base58
pub mod Body
pub mod Document
pub mod Resolver
pub mod Bounded
pub mod Resolved
pub mod Fetched
pub mod Hex
pub mod Base64Url
pub mod Keys
pub mod Policy
