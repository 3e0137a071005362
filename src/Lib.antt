-- ===== src/Lib.antt =====
-- Credaryn issues and verifies signed documents. Its packages sign PDF files through an external
-- service and paper documents through a seal in a QR code, check both against a trust store, and
-- publish the status of documents. These files model the parts in between, in TypeScript, as pure
-- functions over explicit state, and prove what they do.
--
-- How the parts interact. An issuer validates a descriptor (packages/core/src/validate-descriptor.ts),
-- writes its fields as deterministic CBOR (packages/paper/src/cbor.ts), signs them as a COSE_Sign1
-- object (packages/paper/src/cose.ts), and prints the object as a Base45 text behind `CRD1:`
-- (packages/paper/src/base45.ts, encode.ts). A verifier reads the text back (decode.ts), checks the
-- signature with a key of the trust store (cose.ts), and turns what it found into a verdict
-- (packages/paper/src/verify.ts, packages/core/src/verdict.ts), to which a lookup of the status may
-- add (packages/verifier/src/status.ts, services/status/src). The keys have a life of their own
-- (packages/core/src/key-lifecycle.ts). The trust store (packages/verifier/src/trust-store.ts) is
-- built on a policy of configured keys, X.509 anchors and did:web domains
-- (packages/core/src/trust-policy.ts), whose resolver fetches the document of a domain. The SDK
-- (packages/node/src/credaryn.ts) seals and verifies for an application, and the verifier
-- (packages/verifier/src/verify-input.ts) finds out what a submission is, calls the SDK, brings its
-- result into a fixed form, and looks up the status.
--
-- Which file models which part:
--   Base          lists, tests, errors as values (`Result`), JavaScript integers, strings as UTF-16
--                 code units, maps with string keys, UTF-8 (`TextEncoder`, `TextDecoder`); `split`
--                 and `includes` in Split, `find` and `some` in Search
--   Core/Document, Core/Signer, Core/Trust
--                 the shapes of packages/core/src/document.ts, result.ts, signer.ts and trust.ts
--   Core/Descriptor
--                 validate-descriptor.ts: readers in Descriptor, validateDescriptor in Validate
--   Core/Claims   the order of claims, and normalizeDescriptor
--   Core/Verdict  policy.ts and verdict.ts: decideTrust, determineVerdict, createVerificationResult
--   Core/KeyLifecycle
--                 key-lifecycle.ts: KeyLifecycleRegistry; a call takes the registry and returns the
--                 next one with its answer, and Commands makes runs of calls
--   Core/TrustPolicy
--                 trust-policy.ts, the class TrustPolicy: its parts in TrustPolicy, evaluate in
--                 Evaluate; the decisions that it remembers are a state that a call returns anew
--   Core/DidWeb   trust-policy.ts from createDidWebResolver on: the resolver in Resolver, addresses
--                 in Address and Ipv6, Base58 and Base64url in Encodings, bodies in Body, DID
--                 documents in Document
--   Core/Json     what `JSON.parse` returns
--   Paper/Cbor    cbor.ts: encodeDeterministicCbor in Encode, decodeDeterministicCbor in Decode
--   Paper/Base45  base45.ts: encodeBase45, decodeBase45
--   Paper/Der     cose.ts from derToRaw on; providers/aws-kms/src/der-to-cose.ts
--   Paper/Cose    cose.ts: decodeCoseSign1 and encodeCoseSign1Parts in Cose, createCoseSign1 in
--                 Create, verifyCoseSign1 in Verify
--   Paper/Seal    encode.ts in Seal, decode.ts in Decode, verify.ts in Verify
--   Paper/Qr      qr.ts: decodePaperSealQr
--   Node          packages/node/src/credaryn.ts: verifyPdf in Node, sealPdf, createPaperSeal and
--                 verifyPaperSeal in Seal
--   Services/Status
--                 services/status/src/status-repository.ts and status-service.ts
--   Verifier      packages/verifier/src/verify-input.ts in Input (detectInput), status.ts in Lookup,
--                 apps/verifier-web/src/rate-limit.ts in RateLimit, trust-store.ts in TrustStore and
--                 its Bundle, result-normalizer.ts in Normalize, createVerifier with verify-paper.ts
--                 and verify-pdf.ts in Facade
--   Examples      runs of the models on small inputs
--
-- Conventions. A thrown error is an `err` with the message as a constructor. A byte array is a list
-- of numbers; a position in it is the list of what follows. A `Map` is the list of its entries. A
-- record that the code changes in place is replaced in the state. Asynchronous calls are made in
-- sequence.
--
-- Limits and fuel. The limits are those of the code: 4096 bytes, 16 levels and 256 items of CBOR,
-- 1200 bytes of COSE, 1805 bytes of transport. The CBOR reader recurs on the levels that are left
-- below its limit, one more than `MAX_CBOR_DEPTH`, so where the model has none left the code throws
-- the depth error: no fuel is added. The loop of the Base58 decoder that divides by 256 has as many
-- rounds as the text has characters, which is enough. A trust bundle has 64 files of 1 MiB at most, a
-- DID document as many bytes as its resolver is told. All other functions recur on their input.
--
-- What is a parameter: the signer, the PDF engine, the trust store that an application supplies, the
-- status resolver, and their answers; SHA-256, the check of a signature and the reader of public keys
-- of `node:crypto`, `isIP`, the lookup of names and `fetch`; `Date.parse`, `Number`, `JSON.parse`,
-- `decodeURIComponent`, the `URL` parser and the clock; the readers of PNG files and of QR codes; the
-- text of the messages of a seal that cannot be read.
--
-- What is not modelled: PDF signing and rendering, which an external service does; the writing of QR
-- images; the SDKs of the key providers; HTTP servers, SQL, the command line and the user
-- interfaces; the listing of a directory of trust bundles; the status resolver over HTTP. Objects
-- whose property accessors throw, the order that JavaScript gives to integer-like keys, and the lower
-- case of letters that are not ASCII are outside the models.
--
-- Where a document and the code differ, the models follow the code. The tables of verdicts in
-- docs/architecture/verification-result.md and docs/architecture/trust-model.md leave out that a
-- digital artifact whose integrity is not known to be VALID is UNVERIFIABLE, unless it is INVALID.
pub mod Base
pub mod Paper
pub mod Services
pub mod Node
pub mod Verifier
pub mod Core
mod Examples
