-- ===== src/Keychain/Sign.antt =====
-- `sign_tx_access_key` and `sign_tx_registered_key` of tempo/keychain.py.
use tempo_py.Prelude.{
  Bool, true, false, List, [], ◌∷◌, Option, none, some, Result, ok, err, value_error, type_error,
  ◌>>=◌, ◌>>◌, require,
}
use tempo_py.Prelude.Int.{ℤ, pos}
use tempo_py.Python.Bytes.{Bytes, Str}
use tempo_py.External.{External, Rlp, bytes, seq}
use tempo_py.Types.{Address, BytesLike, buffer, as_address}
use tempo_py.Models.Signature
use tempo_py.Models.TempoTransaction.{TempoTransaction, keychain}
use tempo_py.P256.{P256Signer, sign_p256}
use tempo_py.P256.Ecc.{Curve}
use tempo_py.P256.WebAuthn.{sign_webauthn}
use tempo_py.KeychainSignature
use tempo_py.KeychainSignature.{KeychainSignature, InnerSignature}
use tempo_py.Signer
use tempo_py.Signer.{Signer}
use tempo_py.Transaction.{no_changes, get_sign_payload}
use tempo_py.Transaction.Sign.{replace_fields}
use tempo_py.Keychain.Scopes.{TokenLimit, CallScope}
use tempo_py.Keychain.Authorization.{
  SignatureType, secp256k1, p256, webauthn, type_number, KeyAuthorization, new_authorization,
  to_rlp, signature_hash,
}

-- The keyword arguments of `sign_tx_access_key`.
pub record AccessKeyArgs : Type 0 where
  pub chain_id : Option ℤ
  pub key_type : SignatureType
  pub key_id : Option BytesLike
  pub expiry : ℤ
  pub limits : Option (List TokenLimit)
  pub allowed_calls : Option (List CallScope)
  pub is_admin : Bool

-- Their default values.
abbrev pub default_access_key_args : AccessKeyArgs
default_access_key_args = record {
  chain_id = none;
  key_type = secp256k1;
  key_id = none;
  expiry = pos 0;
  limits = none;
  allowed_calls = none;
  is_admin = true;
}

abbrev pub is_secp256k1 : SignatureType → Bool
is_secp256k1 secp256k1 = true
is_secp256k1 p256 = false
is_secp256k1 webauthn = false

-- `chain_id if chain_id is not None else tx.chain_id`
unfoldable pub actual_chain_id : Option ℤ → TempoTransaction → ℤ
actual_chain_id none tx = tx.chain_id
actual_chain_id (some c) tx = c

-- `as_address(key_id) if key_id is not None else access_key.address`
unfoldable pub actual_key_id : External → Option BytesLike → Signer → Result Address
actual_key_id ext none access_key = Signer.address ext access_key
actual_key_id ext (some id) access_key = as_address ext id

-- `[auth.to_rlp(), root_sig.to_canonical_bytes()]`
unfoldable pub signed_authorization : KeyAuthorization → Bytes → Rlp
signed_authorization auth root_sig = seq (seq (to_rlp auth) ∷ bytes root_sig ∷ [])

-- The last steps of both functions: the inner signature is wrapped for the root account.
unfoldable pub attach :
    External → TempoTransaction → InnerSignature → Address → Result TempoTransaction
attach ext tx inner root_addr = do
  sig ← KeychainSignature.from_inner ext inner (buffer root_addr)
  replace_fields ext tx (record no_changes {
    sender_signature = some (keychain sig);
    sender_address = some root_addr;
  })

unfoldable pub sign_tx_access_key :
    External → TempoTransaction → Str → Signer → AccessKeyArgs → Result TempoTransaction
unfolding attach
sign_tx_access_key ext tx access_key_sk root_account args = do
  require (is_secp256k1 args.key_type) value_error
  access_key ← Signer.new ext access_key_sk
  key_id ← actual_key_id ext args.key_id access_key
  root ← Signer.address ext root_account
  root_addr ← as_address ext (buffer root)
  auth ←
      new_authorization ext (buffer key_id) (actual_chain_id args.chain_id tx)
        (some (buffer root_addr)) (type_number args.key_type) args.expiry args.limits
        args.allowed_calls (buffer []) args.is_admin
  auth_hash ← signature_hash ext auth
  root_sig ← Signer.sign root_account auth_hash
  root_bytes ← Signature.to_canonical_bytes root_sig
  tx_with_auth ←
      replace_fields ext tx
        (record no_changes { key_authorization = some (signed_authorization auth root_bytes) })
  payload ← get_sign_payload ext tx_with_auth
  hash ← KeychainSignature.signing_hash ext payload (buffer root_addr)
  inner_sig ← Signer.sign access_key hash
  attach ext tx_with_auth (InnerSignature.secp256k1 inner_sig) root_addr

-- `Signer | P256Signer`
pub data AccessKey : Type 0 where
  ecdsa : Signer → AccessKey
  ecc : P256Signer → AccessKey

-- `access_key.sign(signing_hash, **sign_kwargs)`, where `pre_hash` is the argument that may be
-- forwarded; `Signer.sign` takes no such argument.
unfoldable pub sign_with :
    External → Curve → AccessKey → Bytes → Option Bool → Result InnerSignature
sign_with ext curve (ecdsa signer) hash none =
    Signer.sign signer hash >>= λ s. ok (InnerSignature.secp256k1 s)
sign_with ext curve (ecdsa signer) hash (some pre_hash) = err type_error
sign_with ext curve (ecc signer) hash none =
    sign_p256 ext curve signer (buffer hash) false >>= λ s. ok (InnerSignature.p256 s)
sign_with ext curve (ecc signer) hash (some pre_hash) =
    sign_p256 ext curve signer (buffer hash) pre_hash >>= λ s. ok (InnerSignature.p256 s)

-- The keyword arguments of `sign_webauthn`; a missing `rp_id` is a TypeError.
pub record AssertionArgs : Type 0 where
  pub rp_id : Option Str
  pub origin : Option Str
  pub flags : ℤ
  pub sign_count : ℤ

-- `access_key.sign_webauthn(signing_hash, **sign_kwargs)`, of a `P256Signer` only.
unfoldable pub sign_passkey :
    External → Curve → AccessKey → Bytes → AssertionArgs → Result InnerSignature
sign_passkey ext curve (ecdsa signer) hash args = err type_error
sign_passkey ext curve (ecc signer) hash args = elim args.rp_id [
  | none ↦ err type_error
  | some rp_id ↦
      sign_webauthn ext curve signer (buffer hash) rp_id args.origin args.flags args.sign_count
      >>= λ s. ok (InnerSignature.webauthn s)
]

-- `webauthn`, with the arguments that are forwarded in either case: `webauthn=False` and a
-- `pre_hash`, or `webauthn=True` and those of `sign_webauthn`.
pub data SignMode : Type 0 where
  bare : Option Bool → SignMode
  passkey : AssertionArgs → SignMode

unfoldable pub inner_of : External → Curve → AccessKey → Bytes → SignMode → Result InnerSignature
unfolding sign_with sign_passkey
inner_of ext curve access_key hash (bare pre_hash) = sign_with ext curve access_key hash pre_hash
inner_of ext curve access_key hash (passkey args) = sign_passkey ext curve access_key hash args

unfoldable pub sign_tx_registered_key :
    External → Curve → TempoTransaction → AccessKey → BytesLike → SignMode → Result TempoTransaction
unfolding attach inner_of
sign_tx_registered_key ext curve tx access_key root_account mode = do
  root_addr ← as_address ext root_account
  payload ← get_sign_payload ext tx
  hash ← KeychainSignature.signing_hash ext payload (buffer root_addr)
  inner ← inner_of ext curve access_key hash mode
  attach ext tx inner root_addr
