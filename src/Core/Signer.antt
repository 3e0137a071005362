-- ===== src/Core/Signer.antt =====
-- packages/core/src/signer.ts: a signing key as the stores and registries hold it.
use credaryn.Base.Text.{Bytes, codes, Text}
use credaryn.Base.{List, Option}

-- The `algorithm` comes from outside, so the program compares it with "ES256" at run time.
pub record SignerKeyInfo : Type 0 where
  pub issuer_id : Text
  pub key_id : Text
  pub algorithm : Text
  pub public_key : Bytes
  pub certificate_chain : Option (List Bytes)
  pub certificate_fingerprint : Option Text

abbrev pub es256 : Text
es256 = codes "ES256"
