-- ===== src/Keychain/Verify.antt =====
-- Transactions that an access key signs verify as the root account's.
use tempo_py.Prelude.{
  ◌==◌, ◌≡◌, ◌<◌, refl, ◌∙◌, ◌∷◌, ◌++◌, true, false, none, some, ok, err, value_error, ◌>>=◌,
  length, inr, arith, if◌then◌else◌,
}
use tempo_py.Python.Bytes.{Bytes}
use tempo_py.External.{External, IsHexReader, IsKeccak, IsRlp}
use tempo_py.Types.{Address, buffer}
use tempo_py.Types.Laws.{as_address_lem}
use tempo_py.Models.Signature.{from_bytes}
use tempo_py.Models.Signature.RoundTrip.{from_bytes-to_canonical_bytes}
use tempo_py.Models.TempoTransaction.{TempoTransaction, keychain}
use tempo_py.Models.TempoTransaction.Laws.{IsValid, evolve_lem}
use tempo_py.KeychainSignature.{InnerSignature, keychain_signature_type, signing_hash, embed}
use tempo_py.KeychainSignature.Laws.{blob, from_inner-blob, user_address-blob, inner_signature-blob}
use tempo_py.P256.{P256Signature, p256_to_bytes}
use tempo_py.P256.Ecc.{Curve}
use tempo_py.P256.Layout.{IsEnvelope, p256_to_bytes-P256Parts}
use tempo_py.Signer
use tempo_py.Signer.{Signer}
use tempo_py.Signer.Laws.{IsAccount, sign_lem, recover-canonical}
use tempo_py.Transaction.{get_sign_payload}
use tempo_py.Transaction.Sign.{replace_fields, verify_signature}
use tempo_py.Transaction.Signable.{IsSignable}
use tempo_py.Transaction.Payload.{get_sign_payload_lem}
use tempo_py.Transaction.Signing.{get_sign_payload-unsigned}
use tempo_py.Keychain.Sign.{ecdsa, bare, inner_of, sign_with, attach, sign_tx_registered_key}

-- The transaction with a keychain signature around an inner one.
abbrev pub wrapped : TempoTransaction → Address → Bytes → TempoTransaction
wrapped tx root inner = record tx {
  sender_signature = some (keychain (blob root inner));
  sender_address = some root;
}

module _ (ext : External) (tx : TempoTransaction) (root : Address) (n20 : length root ≡ 20) where
  pub signing_hash_lem :
      (p : Bytes)
      → length p ≡ 32
      → signing_hash ext p (buffer root) ≡ ok (ext.keccak (keychain_signature_type ∷ (p ++ root)))
  unfolding signing_hash
  signing_hash_lem p n = rw (n, as_address_lem ext root (inr n20))

  pub attach_lem :
      (sig : InnerSignature) (inner : Bytes)
      → IsValid tx
      → 0 < length inner
      → embed sig ≡ ok inner
      → attach ext tx sig root ≡ ok (wrapped tx root inner)
  unfolding attach replace_fields
  attach_lem sig inner valid n e =
      rw (from_inner-blob ext sig root inner n20 n e)
        (evolve_lem ext (wrapped tx root inner) (record { token = valid.token; sender = n20 }))

  -- Verification of a wrapped signature: the inner one is recovered over the keychain hash.
  pub verify-wrapped :
      (inner p : Bytes)
      → get_sign_payload ext tx ≡ ok p
      → length p ≡ 32
      → verify_signature ext (wrapped tx root inner) ≡ (
          (if length inner == 65 then from_bytes inner else err value_error) >>= λ s.
          Signer.recover_address ext (ext.keccak (keychain_signature_type ∷ (p ++ root))) s >>= λ _.
          ok root)
  unfolding verify_signature
  verify-wrapped inner p e n = rw (
    get_sign_payload-unsigned ext tx (some (keychain (blob root inner))) (some root) ∙ e,
    user_address-blob root inner n20,
    signing_hash_lem p n,
    inner_signature-blob root inner n20,
  )

-- For a transaction that is well formed and can be encoded, a key that signs as eth_account
-- documents, and libraries that behave as documented: the key, if it is a secp256k1 one, signs for
-- any 20-byte root account through `sign_tx_registered_key` without an exception, and
-- `verify_signature` on the result returns the root account. This holds for every key: that the
-- key is one of the root account's is not part of the check.
pub verify-sign_tx_registered_key :
    (ext : External) (curve : Curve) (tx : TempoTransaction) (root : Address) (signer : Signer)
    → IsHexReader ext
    → IsKeccak ext
    → IsRlp ext
    → IsValid tx
    → IsSignable tx
    → IsAccount ext signer.account
    → length root ≡ 20
    → (signed : TempoTransaction) × (sign_tx_registered_key ext curve tx
          (ecdsa signer)
          (buffer root)
          (bare none)
        ≡ ok signed)
      × (signed.sender_address ≡ some root)
      × (verify_signature ext signed ≡ ok root)
unfolding sign_tx_registered_key inner_of sign_with embed
verify-sign_tx_registered_key ext curve tx root signer hexes hashes codec valid h acc n20 =
    let (b, payload) = get_sign_payload_lem ext hexes codec tx h in
    let n = hashes.length-keccak b in
    let msg = keychain_signature_type ∷ (ext.keccak b ++ root) in
    let n' = hashes.length-keccak msg in
    let sig = acc.signature (ext.keccak msg) in
    let (c, canon, len, back, _) = from_bytes-to_canonical_bytes sig (acc.signature-IsValid _ n') in
    let is_65 : (length c == 65) ≡ true = ground (arith, len) in
    (
      wrapped tx root c,
      rw
          (
            as_address_lem ext root (inr n20),
            payload,
            signing_hash_lem ext tx root n20 (ext.keccak b) n,
            sign_lem ext signer acc (ext.keccak msg) n',
          )
          (attach_lem ext tx root n20 (InnerSignature.secp256k1 sig) c valid (omega (arith, len))
            canon),
      refl,
      verify-wrapped ext tx root n20 c (ext.keccak b) payload n
          ∙ rw (is_65, back, recover-canonical ext signer acc (ext.keccak msg) n'),
    )

-- For a transaction that is well formed and can be encoded, a 20-byte root account, and libraries
-- that behave as documented: a P-256 signature with valid fields is attached for the root account
-- without an exception, but `verify_signature` on the result raises ValueError.
pub verify-attach_p256 :
    (ext : External) (tx : TempoTransaction) (root : Address) (sig : P256Signature)
    → IsHexReader ext
    → IsKeccak ext
    → IsRlp ext
    → IsValid tx
    → IsSignable tx
    → IsEnvelope sig.envelope
    → length root ≡ 20
    → (signed : TempoTransaction) × (attach ext tx (InnerSignature.p256 sig) root ≡ ok signed)
      × (verify_signature ext signed ≡ err value_error)
verify-attach_p256 ext tx root sig hexes hashes codec valid h env n20 =
    let (b, payload) = get_sign_payload_lem ext hexes codec tx h in
    let len = (p256_to_bytes-P256Parts sig env).size in
    let not_65 : (length (p256_to_bytes sig) == 65) ≡ false = ground (arith, len) in
    (
      wrapped tx root (p256_to_bytes sig),
      attach_lem ext tx root n20 (InnerSignature.p256 sig) (p256_to_bytes sig) valid
          (omega (arith, len)) (unfold embed in refl),
      verify-wrapped ext tx root n20 (p256_to_bytes sig) (ext.keccak b) payload
            (hashes.length-keccak b)
          ∙ rw not_65,
    )
