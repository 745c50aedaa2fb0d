-- ===== src/KeychainSignature/Laws.antt =====
-- A keychain signature gives back the root account and the inner signature that it was built from.
use tempo_py.Prelude.{
  ◌==◌, ◌≡◌, ◌<◌, ◌∙◌, ◌∷◌, ◌++◌, if◌then◌else◌, ok, err, value_error, length, inr, length-append,
  take-append, drop-append, arith,
}
use tempo_py.Python.Bytes.{Bytes}
use tempo_py.External.{External}
use tempo_py.Types.{Address, buffer, as_bytes}
use tempo_py.Types.Laws.{as_address_lem}
use tempo_py.Models.Signature.{Signature, from_bytes}
use tempo_py.Models.Signature.Laws.{IsValid}
use tempo_py.Models.Signature.RoundTrip.{canonical, from_bytes-to_canonical_bytes}
use tempo_py.KeychainSignature.{
  KeychainSignature, keychain_signature_type, new, InnerSignature, secp256k1, embed, from_inner,
  user_address, inner_bytes, inner_signature,
}

-- The blob that `from_inner` builds, when the root account has 20 bytes and something is embedded.
abbrev pub blob : Bytes → Bytes → KeychainSignature
blob user inner = record { raw = keychain_signature_type ∷ (user ++ inner) }

new-blob :
    (ext : External) (user inner : Bytes)
    → length user ≡ 20
    → 0 < length inner
    → new ext (buffer (keychain_signature_type ∷ (user ++ inner))) ≡ ok (blob user inner)
unfolding new as_bytes
new-blob ext user inner hu hi = ground (arith, length-append user inner)

pub from_inner-blob :
    (ext : External) (sig : InnerSignature) (user inner : Bytes)
    → length user ≡ 20
    → 0 < length inner
    → embed sig ≡ ok inner
    → from_inner ext sig (buffer user) ≡ ok (blob user inner)
unfolding from_inner
from_inner-blob ext sig user inner hu hi e =
    rw (e, as_address_lem ext user (inr hu)) (new-blob ext user inner hu hi)

pub user_address-blob :
    (user inner : Bytes) → length user ≡ 20 → user_address (blob user inner) ≡ user
unfolding user_address
user_address-blob user inner h = take-append 20 user inner h

pub inner_bytes-blob :
    (user inner : Bytes) → length user ≡ 20 → inner_bytes (blob user inner) ≡ inner
unfolding inner_bytes
inner_bytes-blob user inner h = drop-append 20 user inner h

pub inner_signature-blob :
    (user inner : Bytes)
    → length user ≡ 20
    → inner_signature (blob user inner)
      ≡ (if length inner == 65 then from_bytes inner else err value_error)
unfolding inner_signature
inner_signature-blob user inner h =
    let e = inner_bytes-blob user inner h in
    let n = length-append user inner in ground (arith, e, n)

-- A valid secp256k1 signature that an access key made for a 20-byte root account is wrapped without an
-- exception in 86 bytes, from which the root account and the canonical form of the signature are
-- read back.
pub from_inner_secp256k1 :
    (ext : External) (sig : Signature) (user : Address)
    → IsValid sig
    → length user ≡ 20
    → (k : KeychainSignature) × (from_inner ext (secp256k1 sig) (buffer user) ≡ ok k)
      × (length k.raw ≡ 86)
      × (user_address k ≡ user)
      × (inner_signature k ≡ ok (canonical sig))
unfolding embed
from_inner_secp256k1 ext sig user h hu =
    let (b, e, n, back, _) = from_bytes-to_canonical_bytes sig h in
    (
      blob user b,
      from_inner-blob ext (secp256k1 sig) user b hu (omega (arith, n)) e,
      omega (arith, n, length-append user b),
      user_address-blob user b hu,
      inner_signature-blob user b hu ∙ rw n back,
    )
