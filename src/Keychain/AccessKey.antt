-- ===== src/Keychain/AccessKey.antt =====
-- Transactions that a new access key signs together with its authorization by the root account.
use tempo_py.Prelude.{some}
use tempo_py.Python.Bytes.{Bytes}
use tempo_py.External.{External}
use tempo_py.Models.TempoTransaction.{TempoTransaction}
use tempo_py.Signer
use tempo_py.Signer.{Signer}
use tempo_py.Keychain.Authorization.{KeyAuthorization}
use tempo_py.Keychain.Sign.{signed_authorization}

abbrev authorized : TempoTransaction → KeyAuthorization → Bytes → TempoTransaction
authorized tx auth root_bytes = record tx {
  key_authorization = some (signed_authorization auth root_bytes);
}
