-- ===== src/Samples/AccessKey.antt =====
-- A transaction that a new access key signs, with its authorization.
use tempo_py.Prelude.{[], true, none, some}
use tempo_py.Prelude.Int.{pos}
use tempo_py.Python.Bytes.{Bytes}
use tempo_py.Types.{buffer}
use tempo_py.Models.TempoTransaction.{TempoTransaction}
use tempo_py.Keychain.Authorization.{KeyAuthorization}
use tempo_py.Keychain.Sign.{AccessKeyArgs, default_access_key_args}
use tempo_py.Samples.Setup.{alice, bob}

-- An authorization of the key of `bob` by the signer.
abbrev authorization_args : AccessKeyArgs
authorization_args = record default_access_key_args { key_id = some (buffer bob) }

abbrev admin_authorization : KeyAuthorization
admin_authorization = record {
  key_id = bob;
  chain_id = pos 4217;
  account = some alice;
  key_type = pos 0;
  expiry = pos 0;
  limits = none;
  allowed_calls = none;
  witness = [];
  is_admin = true;
}
