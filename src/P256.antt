-- ===== src/P256.antt =====
-- tempo/p256.py: P-256 and WebAuthn signatures.
pub mod Ecc
pub mod Signing
pub mod Layout
pub mod WebAuthn
pub mod ClientData
pub mod Assertion
use tempo_py.Prelude.{
  ℕ, ◌+◌, ◌-◌, ◌/◌, ◌==◌, min, Bool, true, false, ◌&&◌, not, if◌then◌else◌, List, [], ◌∷◌, ◌++◌,
  length, take, drop, Option, none, some, Result, ok, err, value_error, ◌>>=◌, ◌>>◌, require, ltb,
  leb,
}
use tempo_py.Prelude.Int.{ℤ, pos, ltb_ℤ, ◌-ℤ◌}
use tempo_py.Python.Bytes.{Bytes}
use tempo_py.Python.Ints.{to_bytes, from_bytes}
use tempo_py.External.{External}
use tempo_py.Types.{Address, BytesLike, buffer, as_bytes}
use tempo_py.P256.Ecc.{Curve, EccKey}

abbrev pub p256_signature_type : ℕ
p256_signature_type = 0x01

abbrev pub webauthn_signature_type : ℕ
webauthn_signature_type = 0x02

abbrev pub p256_n : ℕ
p256_n = 0xFFFFFFFF00000000FFFFFFFFFFFFFFFFBCE6FAADA7179E84F3B9CAC2FC632551

abbrev pub p256_half_n : ℕ
p256_half_n = p256_n / 2

abbrev pub auth_data_length : ℕ
auth_data_length = 37

unfoldable pub derive_address : External → BytesLike → BytesLike → Result Address
derive_address ext pub_key_x pub_key_y = do
  x ← as_bytes ext pub_key_x
  y ← as_bytes ext pub_key_y
  require (length (x ++ y) == 64) value_error
  ok (drop 12 (ext.keccak (x ++ y)))

unfoldable pub webauthn_message_hash : External → Curve → BytesLike → BytesLike → Result Bytes
webauthn_message_hash ext curve authenticator_data client_data_json = do
  a ← as_bytes ext authenticator_data
  c ← as_bytes ext client_data_json
  ok (curve.sha256 (a ++ curve.sha256 c))

-- Field validation

unfoldable pub validate_coordinate : Bytes → Result (Unit {0})
validate_coordinate value = require (length value == 32) value_error

unfoldable pub validate_scalar : Bytes → Result (Unit {0})
unfolding validate_coordinate
validate_scalar value = do
  validate_coordinate value
  require (ltb 0 (from_bytes value) && ltb (from_bytes value) p256_n) value_error

unfoldable pub validate_low_s : Bytes → Result (Unit {0})
unfolding validate_scalar
validate_low_s value = do
  validate_scalar value
  require (leb (from_bytes value) p256_half_n) value_error

unfoldable pub validate_authenticator_data : Bytes → Result (Unit {0})
validate_authenticator_data value = require (length value == auth_data_length) value_error

-- `_P256Envelope`
pub record Envelope : Type 0 where
  pub r : Bytes
  pub s : Bytes
  pub pub_key_x : Bytes
  pub pub_key_y : Bytes

-- The converters of the four fields, in their order.
unfoldable pub convert_envelope :
    External → BytesLike → BytesLike → BytesLike → BytesLike → Result Envelope
convert_envelope ext r s x y = do
  r' ← as_bytes ext r
  s' ← as_bytes ext s
  x' ← as_bytes ext x
  y' ← as_bytes ext y
  ok (record { r = r'; s = s'; pub_key_x = x'; pub_key_y = y' })

-- The validators of the four fields, which run once every field is converted.
unfoldable pub validate_envelope : Envelope → Result (Unit {0})
unfolding validate_low_s
validate_envelope e = do
  validate_scalar e.r
  validate_low_s e.s
  validate_coordinate e.pub_key_x
  validate_coordinate e.pub_key_y

-- `_P256Envelope.address`
unfoldable pub envelope_address : External → Envelope → Result Address
envelope_address ext e = derive_address ext (buffer e.pub_key_x) (buffer e.pub_key_y)

-- `except ValueError: return False`
unfoldable pub false_on_value_error : Result Bool → Result Bool
false_on_value_error (ok b) = ok b
false_on_value_error (err value_error) = ok false
false_on_value_error (err e) = err e

-- `_P256Envelope.verify`
unfoldable pub verify_envelope : External → Curve → Envelope → BytesLike → Result Bool
unfolding false_on_value_error
verify_envelope ext curve e message_hash = do
  verifier ← curve.construct_point (from_bytes e.pub_key_x) (from_bytes e.pub_key_y)
  false_on_value_error (do digest ← as_bytes ext message_hash; ok (verifier digest (e.r ++ e.s)))

pub record P256Signature : Type 0 where
  pub envelope : Envelope
  pub open envelope use *
  pub pre_hash : Bool

-- `P256Signature(r, s, x, y, pre_hash)`
unfoldable pub new_p256 :
    External → BytesLike → BytesLike → BytesLike → BytesLike → Bool → Result P256Signature
new_p256 ext r s x y pre_hash = do
  e ← convert_envelope ext r s x y
  validate_envelope e
  ok (record { envelope = e; pre_hash = pre_hash })

-- `P256Signature.verify`
unfoldable pub verify_p256 : External → Curve → P256Signature → BytesLike → Result Bool
verify_p256 ext curve sig message_hash = do
  payload ← as_bytes ext message_hash
  verify_envelope ext curve sig.envelope
      (buffer (if sig.pre_hash then curve.sha256 payload else payload))

-- `bytes([int(b)])`
abbrev pub flag : Bool → Bytes
flag b = (if b then 1 else 0) ∷ []

-- `P256Signature.to_bytes`
unfoldable pub p256_to_bytes : P256Signature → Bytes
p256_to_bytes sig =
    p256_signature_type
    ∷ (sig.r ++ (sig.s ++ (sig.pub_key_x ++ (sig.pub_key_y ++ flag sig.pre_hash))))

pub record WebAuthnSignature : Type 0 where
  pub envelope : Envelope
  pub open envelope use *
  pub authenticator_data : Bytes
  pub client_data_json : Bytes

-- `WebAuthnSignature(r, s, x, y, authenticator_data, client_data_json)`
unfoldable pub new_webauthn :
    External
    → BytesLike
    → BytesLike
    → BytesLike
    → BytesLike
    → BytesLike
    → BytesLike
    → Result WebAuthnSignature
new_webauthn ext r s x y authenticator_data client_data_json = do
  e ← convert_envelope ext r s x y
  a ← as_bytes ext authenticator_data
  c ← as_bytes ext client_data_json
  validate_envelope e
  validate_authenticator_data a
  ok (record { envelope = e; authenticator_data = a; client_data_json = c })

-- `WebAuthnSignature.message_hash`
unfoldable pub webauthn_own_hash : External → Curve → WebAuthnSignature → Result Bytes
webauthn_own_hash ext curve sig =
    webauthn_message_hash ext curve (buffer sig.authenticator_data) (buffer sig.client_data_json)

-- `WebAuthnSignature.verify`
unfoldable pub verify_webauthn :
    External → Curve → WebAuthnSignature → Option BytesLike → Result Bool
verify_webauthn ext curve sig none = do
  h ← webauthn_own_hash ext curve sig
  verify_envelope ext curve sig.envelope (buffer h)
verify_webauthn ext curve sig (some message_hash) =
    verify_envelope ext curve sig.envelope message_hash

-- `WebAuthnSignature.to_bytes`
unfoldable pub webauthn_to_bytes : WebAuthnSignature → Bytes
webauthn_to_bytes sig =
    webauthn_signature_type
    ∷ (sig.authenticator_data
        ++ (sig.client_data_json ++ (sig.r ++ (sig.s ++ (sig.pub_key_x ++ sig.pub_key_y)))))

-- `P256Signer`: the key, and its public coordinates as bytes.
pub record P256Signer : Type 0 where
  pub key : EccKey
  pub pub_key_x : Bytes
  pub pub_key_y : Bytes

-- `P256Signer.__init__`, from the key that `ECC.construct` made of the private key.
unfoldable pub new_p256_signer : EccKey → Result P256Signer
new_p256_signer key = do
  x ← to_bytes key.point_x 32
  y ← to_bytes key.point_y 32
  ok (record { key = key; pub_key_x = x; pub_key_y = y })

-- `P256Signer.address`
unfoldable pub p256_signer_address : External → P256Signer → Result Address
p256_signer_address ext signer =
    derive_address ext (buffer signer.pub_key_x) (buffer signer.pub_key_y)

-- `min(s, P256_N - s)`
unfoldable pub low_s : ℕ → ℤ
unfolding ◌-ℤ◌
low_s s = let twin = pos p256_n -ℤ pos s in if ltb_ℤ twin (pos s) then twin else pos s

-- `P256Signer._sign_raw`
unfoldable pub sign_raw : P256Signer → Bytes → Result (Bytes × Bytes)
sign_raw signer message_hash =
    let raw = signer.key.dss_sign message_hash in
    (to_bytes (low_s (from_bytes (drop 32 raw))) 32 >>= λ s. ok (take 32 raw, s))

-- `P256Signer.sign`
unfoldable pub sign_p256 : External → Curve → P256Signer → BytesLike → Bool → Result P256Signature
sign_p256 ext curve signer message_hash pre_hash = do
  payload ← as_bytes ext message_hash
  require (length payload == 32) value_error
  (r, s) ← sign_raw signer (if pre_hash then curve.sha256 payload else payload)
  new_p256 ext (buffer r) (buffer s) (buffer signer.pub_key_x) (buffer signer.pub_key_y) pre_hash
