-- ===== src/Core/KeyLifecycle/Commands.antt =====
-- key-lifecycle.ts: the calls that change the registry, as values, and runs of them.
use credaryn.Core.KeyLifecycle.{
  compromise, revoke, retire, KeyLifecycleError, activate, KeyVersionIdentity, authorize,
  KeyVersionRecord, Registry,
}
use credaryn.Base.{err, [], Option, ok, ◌∷◌, Result, List}
use credaryn.Base.Text.{Text}

pub data Command : Type 0 where
  authorization : KeyVersionRecord → Command
  activation : KeyVersionIdentity → Text → Command
  retirement : KeyVersionIdentity → Text → Option Text → Command
  revocation compromising : KeyVersionIdentity → Text → Text → Command

-- A call that throws changes nothing.
abbrev pub after : Registry → Result KeyLifecycleError (Registry × KeyVersionRecord) → Registry
after records (ok (records', r)) = records'
after records (err e) = records

unfoldable pub execute : Registry → Command → Registry
execute records (authorization input) = after records (authorize input records)
execute records (activation identity at) = after records (activate identity at records)
execute records (retirement identity at reason) = after records (retire identity at reason records)
execute records (revocation identity reason at) = after records (revoke identity reason at records)
execute records (compromising identity reason at) =
    after records (compromise identity reason at records)

unfoldable pub execute_all : Registry → List Command → Registry
execute_all records [] = records
execute_all records (c ∷ cs) = execute_all (execute records c) cs
