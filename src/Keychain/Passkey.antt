-- ===== src/Keychain/Passkey.antt =====
-- A registered P-256 key that signs as a passkey.
use tempo_py.Prelude.{
  ℕ, ◌^◌, ◌≡◌, ◌<◌, ◌==◌, ◌∙◌, ◌∷◌, ◌++◌, true, false, none, some, ok, err, value_error, length,
  Option, inr, arith, refl,
}
use tempo_py.Prelude.Int.{pos}
use tempo_py.Python.Bytes.{Bytes, Str}
use tempo_py.Python.Json.Objects.{IsText}
use tempo_py.External.{External, IsHexReader, IsKeccak, IsRlp}
use tempo_py.Types.{Address, buffer}
use tempo_py.Types.Laws.{as_address_lem}
use tempo_py.Models.TempoTransaction.{TempoTransaction, keychain}
use tempo_py.Models.TempoTransaction.Laws.{IsValid}
use tempo_py.KeychainSignature.{
  KeychainSignature, InnerSignature, keychain_signature_type, user_address, inner_bytes, embed,
}
use tempo_py.KeychainSignature.Laws.{blob, user_address-blob, inner_bytes-blob}
use tempo_py.P256.{
  P256Signer, WebAuthnSignature, new_p256_signer, verify_webauthn, webauthn_to_bytes,
}
use tempo_py.P256.Ecc.{Curve, EccKey}
use tempo_py.P256.Layout.{IsEnvelope, WebAuthnParts, webauthn_to_bytes-WebAuthnParts}
use tempo_py.P256.Signing.{IsEccKey, IsSha256}
use tempo_py.P256.WebAuthn.{origin_or}
use tempo_py.P256.Assertion.{
  Asserts, length-authenticator_data, SignsWebauthn, sign_webauthn-SignsWebauthn,
}
use tempo_py.Transaction.{get_sign_payload}
use tempo_py.Transaction.Sign.{verify_signature}
use tempo_py.Transaction.Signable.{IsSignable}
use tempo_py.Transaction.Payload.{get_sign_payload_lem}
use tempo_py.Keychain.Sign.{
  ecc, passkey, AssertionArgs, inner_of, sign_passkey, sign_tx_registered_key,
}
use tempo_py.Keychain.Verify.{wrapped, signing_hash_lem, attach_lem, verify-wrapped}

-- The arguments of a call that names the relying party.
abbrev pub assertion_args : Str → Option Str → ℕ → ℕ → AssertionArgs
assertion_args rp_id origin flags count = record {
  rp_id = some rp_id;
  origin = origin;
  flags = pos flags;
  sign_count = pos count;
}

-- What `sign_tx_registered_key` returns: the transaction, its keychain signature, and the assertion
-- that is inside of it.
pub record SignsPasskey (ext : External) (curve : Curve) (tx : TempoTransaction)
    (signer : P256Signer) (root : Address) (rp_id : Str) (origin : Option Str) (flags count : ℕ)
    : Type 0 where
  pub tx_signed : TempoTransaction
  pub returned :
      sign_tx_registered_key ext curve tx
        (ecc signer)
        (buffer root)
        (passkey (assertion_args rp_id origin flags count))
      ≡ ok tx_signed
  pub sender : tx_signed.sender_address ≡ some root
  pub blob_of : KeychainSignature
  pub signature : tx_signed.sender_signature ≡ some (keychain blob_of)
  pub root_inside : user_address blob_of ≡ root
  pub sig : WebAuthnSignature
  pub embedded : inner_bytes blob_of ≡ webauthn_to_bytes sig
  pub parts : WebAuthnParts sig (webauthn_to_bytes sig)
  pub valid : IsEnvelope sig.envelope
  pub payload : Bytes
  pub payload_of : get_sign_payload ext tx ≡ ok payload
  pub says :
      Asserts curve sig
        (ext.keccak (keychain_signature_type ∷ (payload ++ root)))
        rp_id
        (origin_or origin rp_id)
        flags
        count
  pub verified : verify_webauthn ext curve sig none ≡ ok true
  pub refused : verify_signature ext tx_signed ≡ err value_error

-- For a transaction that is well formed and can be encoded, a 20-byte root account, libraries that
-- behave as documented, a P-256 key likewise, and arguments in their ranges, without surrogates in
-- the texts: `sign_tx_registered_key` with `webauthn=True` returns a transaction of the root
-- account. Inside its keychain signature are the root account and the bytes of a valid WebAuthn
-- assertion (the type byte 0x02, 37 bytes of authenticator data, the client data, and 128 bytes of
-- r, s and the public key), which `verify` accepts and whose challenge reads as the hash of the keychain type, the
-- payload and the root account. But `verify_signature` raises ValueError on the transaction.
pub sign_tx_registered_key-SignsPasskey :
    (ext : External) (curve : Curve) (tx : TempoTransaction) (key : EccKey) (signer : P256Signer)
    (root : Address) (rp_id : Str) (origin : Option Str) (flags count : ℕ)
    → IsHexReader ext
    → IsKeccak ext
    → IsRlp ext
    → IsValid tx
    → IsSignable tx
    → length root ≡ 20
    → IsEccKey curve key
    → IsSha256 curve
    → new_p256_signer key ≡ ok signer
    → IsText rp_id
    → IsText (origin_or origin rp_id)
    → flags < 256
    → count < 2 ^ 32
    → SignsPasskey ext curve tx signer root rp_id origin flags count
unfolding sign_tx_registered_key inner_of sign_passkey
sign_tx_registered_key-SignsPasskey ext curve tx key signer root rp_id origin flags count hexes
      hashes codec valid h n20 hk hs made hr ho hf hc =
    let (b, payload) = get_sign_payload_lem ext hexes codec tx h in
    let n = hashes.length-keccak b in
    let hash = ext.keccak (keychain_signature_type ∷ (ext.keccak b ++ root)) in
    let done : SignsWebauthn ext curve signer hash rp_id origin flags count =
      sign_webauthn-SignsWebauthn ext curve key signer hash rp_id origin flags count hk hs made
        (hashes.keccak-IsBytes _) hr ho hf hc in
    let inner = webauthn_to_bytes done.sig in
    let parts : WebAuthnParts done.sig inner =
      webauthn_to_bytes-WebAuthnParts done.sig done.valid
        (length-authenticator_data curve _ _ _ _ _ _ hs done.says) in
    let not_65 : (length inner == 65) ≡ false = ground (arith, parts.size) in
    record {
      tx_signed = wrapped tx root inner;
      returned =
          rw
            (
              as_address_lem ext root (inr n20),
              payload,
              signing_hash_lem ext tx root n20 (ext.keccak b) n,
              done.returned,
            )
            (attach_lem ext tx root n20 (InnerSignature.webauthn done.sig) inner valid
              (omega (arith, parts.size)) (unfold embed in refl));
      sender = refl;
      blob_of = blob root inner;
      signature = refl;
      root_inside = user_address-blob root inner n20;
      sig = done.sig;
      embedded = inner_bytes-blob root inner n20;
      parts = parts;
      valid = done.valid;
      payload = ext.keccak b;
      payload_of = payload;
      says = done.says;
      verified = done.verified;
      refused = verify-wrapped ext tx root n20 inner (ext.keccak b) payload n ∙ rw not_65;
    }
