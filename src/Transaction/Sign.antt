-- ===== src/Transaction/Sign.antt =====
-- The second half of tempo/transaction.py: `_replace_fields`, signing and verification.
use tempo_py.Prelude.{Option, none, some, Result, ok, err, value_error, ◌>>=◌}
use tempo_py.External.{External}
use tempo_py.Types.{Address, BytesLike, buffer, other}
use tempo_py.Models.TempoTransaction.{
  TempoTransaction, SenderSignature, secp256k1, keychain, evolve,
}
use tempo_py.KeychainSignature
use tempo_py.KeychainSignature.{KeychainSignature}
use tempo_py.Signer
use tempo_py.Signer.{Signer}
use tempo_py.Transaction.{Changes, no_changes, get_sign_payload, get_fee_payer_sign_payload}

-- The value of a field that a change may replace.
abbrev pub replaced {ℓ} : {A : Type ℓ} → Option A → A → A
replaced none old = old
replaced (some new) old = new

abbrev pub replaced_option {ℓ} : {A : Type ℓ} → Option A → Option A → Option A
replaced_option none old = old
replaced_option (some new) old = some new

-- `_replace_fields`
unfoldable pub replace_fields : External → TempoTransaction → Changes → Result TempoTransaction
replace_fields ext tx kw = evolve ext (record tx {
  sender_signature = replaced_option kw.sender_signature tx.sender_signature;
  fee_payer_signature = replaced_option kw.fee_payer_signature tx.fee_payer_signature;
  sender_address = replaced_option kw.sender_address tx.sender_address;
  awaiting_fee_payer = replaced kw.awaiting_fee_payer tx.awaiting_fee_payer;
  key_authorization = replaced_option kw.key_authorization tx.key_authorization;
})

unfoldable pub sign_transaction : External → TempoTransaction → Signer → Result TempoTransaction
sign_transaction ext tx signer = do
  hash_to_sign ← get_sign_payload ext tx
  sig ← Signer.sign signer hash_to_sign
  addr ← Signer.address ext signer
  replace_fields ext tx
      (record no_changes { sender_signature = some (secp256k1 sig); sender_address = some addr })

-- `tx.sender_address` as the argument `sender`; None is no bytes-like object.
unfoldable pub sender_argument : Option Address → BytesLike
sender_argument none = other
sender_argument (some a) = buffer a

-- `add_fee_payer_signature`, for a transaction that has a sender signature.
unfoldable pub sponsor : External → TempoTransaction → Signer → Result TempoTransaction
sponsor ext tx fee_payer = do
  hash_to_sign ← get_fee_payer_sign_payload ext tx (sender_argument tx.sender_address)
  sig ← Signer.sign fee_payer hash_to_sign
  replace_fields ext tx (record no_changes { fee_payer_signature = some sig })

unfoldable pub add_fee_payer_signature :
    External → TempoTransaction → Signer → Result TempoTransaction
unfolding sponsor
add_fee_payer_signature ext tx fee_payer = elim (tx.sender_signature) [
  | none ↦ err value_error
  | some sig ↦ sponsor ext tx fee_payer
]

-- `verify_signature`, for the sender signature that the transaction has.
unfoldable pub verify_sender : External → TempoTransaction → SenderSignature → Result Address
verify_sender ext tx (secp256k1 sig) = do
  hash_signed ← get_sign_payload ext tx
  Signer.recover_address ext hash_signed sig
verify_sender ext tx (keychain sig) = do
  hash_signed ← get_sign_payload ext tx
  h ← KeychainSignature.signing_hash ext hash_signed (buffer (KeychainSignature.user_address sig))
  inner ← KeychainSignature.inner_signature sig
  _ ← Signer.recover_address ext h inner
  ok (KeychainSignature.user_address sig)

unfoldable pub verify_signature : External → TempoTransaction → Result Address
unfolding verify_sender
verify_signature ext tx = elim (tx.sender_signature) [
  | none ↦ err value_error
  | some sig ↦ verify_sender ext tx sig
]

unfoldable pub verify_fee_payer_signature : External → TempoTransaction → BytesLike → Result Address
verify_fee_payer_signature ext tx sender = elim (tx.fee_payer_signature) [
  | none ↦ err value_error
  | some sig ↦ get_fee_payer_sign_payload ext tx sender >>= λ h. Signer.recover_address ext h sig
]
