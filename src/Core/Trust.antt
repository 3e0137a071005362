-- ===== src/Core/Trust.antt =====
-- packages/core/src/trust.ts and the SignerProvider of signer.ts: what the application supplies. A
-- rejected promise is an error that carries nothing. One verification calls each function once at
-- most, so its answer is a function of the arguments.
use credaryn.Core.Signer.{SignerKeyInfo}
use credaryn.Base.Text.{Bytes, Text}
use credaryn.Base.{Bool, Option, Result}

pub record TrustStore : Type 0 where
  pub resolve : Text → Text → Result (Unit {0}) (Option SignerKeyInfo)
  pub resolve_by_fingerprint : Option (Text → Result (Unit {0}) (Option SignerKeyInfo))
  pub is_trusted : Option (SignerKeyInfo → Result (Unit {0}) Bool)
  pub trust_source : Option Text

pub record SignerProvider : Type 0 where
  pub get_key_info : Result (Unit {0}) SignerKeyInfo
  pub sign : Bytes → Result (Unit {0}) Bytes
