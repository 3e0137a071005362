-- ===== src/Examples/Keys.antt =====
-- packages/core/src/key-lifecycle.ts: two versions of an issuer's key, activated in turn.
use credaryn.Base.Text.{trim, is_blank, codes, Text}
use credaryn.Base.{refl, some, none, map, arith, ◌≡◌, ◌∷◌, [], List}
use credaryn.Core.KeyLifecycle.Commands.{activation, authorization, Command, execute, execute_all}
use credaryn.Core.KeyLifecycle.Active.{IsValid-nil, IsValid}
use credaryn.Core.KeyLifecycle.{
  KeyVersionStatus, activate, authorize, KeyVersionIdentity, KeyVersionRecord, record_reference,
  find_record,
}
use credaryn.Core.KeyLifecycle.OneActive.{execute_all-IsValid}
use credaryn.Core.Signer.{es256}
use credaryn.Core.KeyLifecycle.Phases.{execute_all-Preserves, Advances}

abbrev identity_of : Text → KeyVersionIdentity
identity_of version = record {
  issuer_id = codes "i";
  key_id = codes "k";
  version = version;
  certificate_fingerprint = codes "f";
}

abbrev record_of : Text → KeyVersionRecord
record_of version = record {
  identity = identity_of version;
  key_info = record {
    issuer_id = codes "i";
    key_id = codes "k";
    algorithm = es256;
    public_key = 1 ∷ [];
    certificate_chain = none;
    certificate_fingerprint = none;
  };
  status = none;
  authorized_at = codes "t0";
  activated_at = none;
  retired_at = none;
  revoked_at = none;
  compromised_at = none;
  reason = none;
}

abbrev rotation : List Command
rotation =
    authorization (record_of (codes "1"))
    ∷ authorization (record_of (codes "2"))
    ∷ activation (identity_of (codes "1")) (codes "t1")
    ∷ activation (identity_of (codes "2")) (codes "t2")
    ∷ []

-- The second activation retires the first version.
rotation_run :
    map (λ e. e.1.status) (execute_all [] rotation)
    ≡ some KeyVersionStatus.retired ∷ some KeyVersionStatus.active ∷ []
unfolding execute_all execute authorize activate is_blank trim
rotation_run = refl

execute_all-IsValid_example : IsValid (execute_all [] rotation)
execute_all-IsValid_example = execute_all-IsValid [] rotation IsValid-nil (omega arith)

execute_all-Preserves_example :
    (r' : KeyVersionRecord) × (find_record (record_reference (identity_of (codes "1"))) (
        execute_all
          ((record_reference (identity_of (codes "1")), record_of (codes "1")) ∷ [])
          rotation)
      ≡ some r')
    × Advances (record_of (codes "1")) r'
unfolding find_record record_reference
execute_all-Preserves_example =
    execute_all-Preserves ((record_reference (identity_of (codes "1")), record_of (codes "1")) ∷ [])
      rotation (record_reference (identity_of (codes "1"))) (record_of (codes "1")) refl
