-- ===== src/KeychainSignature.antt =====
-- `KeychainSignature` of tempo/keychain.py: an access key's signature on behalf of a root account.
pub mod Laws
use tempo_py.Prelude.{
  ℕ, ◌==◌, Bool, true, false, not, List, [], ◌∷◌, ◌++◌, length, take, drop, Result, ok, err,
  value_error, ◌>>=◌, ◌>>◌, require, leb,
}
use tempo_py.Python.Bytes.{Bytes}
use tempo_py.External.{External}
use tempo_py.Types.{Address, BytesLike, buffer, as_bytes, as_address}
use tempo_py.Models.Signature
use tempo_py.Models.Signature.{Signature, first}
use tempo_py.P256.{P256Signature, WebAuthnSignature, p256_to_bytes, webauthn_to_bytes}

abbrev pub keychain_signature_type : ℕ
keychain_signature_type = 0x04

abbrev pub inner_signature_length : ℕ
inner_signature_length = 65

-- 1 + 20 + 65
abbrev pub keychain_signature_length : ℕ
keychain_signature_length = 86

abbrev pub inner_offset : ℕ
inner_offset = 21

pub record KeychainSignature : Type 0 where
  pub raw : Bytes

-- `KeychainSignature(raw=…)`: the converter, then `__attrs_post_init__`.
unfoldable pub new : External → BytesLike → Result KeychainSignature
new ext value = do
  raw ← as_bytes ext value
  require (not (leb (length raw) inner_offset)) value_error
  require (first raw == keychain_signature_type) value_error
  ok (record { raw = raw })

-- The signatures that an access key makes.
pub data InnerSignature : Type 0 where
  secp256k1 : Signature → InnerSignature
  p256 : P256Signature → InnerSignature
  webauthn : WebAuthnSignature → InnerSignature

-- `to_canonical_bytes` of a secp256k1 signature, `to_bytes` of any other.
unfoldable pub embed : InnerSignature → Result Bytes
embed (secp256k1 sig) = Signature.to_canonical_bytes sig
embed (p256 sig) = ok (p256_to_bytes sig)
embed (webauthn sig) = ok (webauthn_to_bytes sig)

unfoldable pub from_inner : External → InnerSignature → BytesLike → Result KeychainSignature
from_inner ext inner_sig user_address = do
  inner ← embed inner_sig
  user ← as_address ext user_address
  new ext (buffer (keychain_signature_type ∷ (user ++ inner)))

unfoldable pub signing_hash : External → Bytes → BytesLike → Result Bytes
signing_hash ext sig_hash user_address = do
  require (length sig_hash == 32) value_error
  user ← as_address ext user_address
  ok (ext.keccak (keychain_signature_type ∷ (sig_hash ++ user)))

-- `self.raw[1:21]`
unfoldable pub user_address : KeychainSignature → Address
user_address sig = drop 1 (take inner_offset sig.raw)

-- `self.raw[21:]`
unfoldable pub inner_bytes : KeychainSignature → Bytes
inner_bytes sig = drop inner_offset sig.raw

unfoldable pub inner_signature : KeychainSignature → Result Signature
inner_signature sig = do
  require (length sig.raw == keychain_signature_length) value_error
  Signature.from_bytes (inner_bytes sig)

-- `KeychainSignature.to_bytes`
unfoldable pub to_bytes : KeychainSignature → Bytes
to_bytes sig = sig.raw

unfoldable pub build_keychain_signature : External → Signature → BytesLike → Result Bytes
build_keychain_signature ext inner_sig user_address = do
  sig ← from_inner ext (secp256k1 inner_sig) user_address
  ok (to_bytes sig)
