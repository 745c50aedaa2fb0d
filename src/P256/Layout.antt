-- ===== src/P256/Layout.antt =====
-- The P-256 and WebAuthn envelopes: their lengths, and where their parts stand.
use tempo_py.Prelude.{
  ℕ, ◌+◌, ◌≡◌, ◌≤◌, ◌<◌, refl, ap, [], ◌∷◌, ◌++◌, ok, length, take, drop, length-append,
  append_assoc, drop-append, drop-take-append, drop-append-append, arith,
}
use tempo_py.Python.Bytes.{Bytes}
use tempo_py.Python.Ints.{from_bytes}
use tempo_py.P256.{
  Envelope, flag, P256Signature, WebAuthnSignature, p256_n, p256_half_n, validate_envelope,
  p256_to_bytes, webauthn_to_bytes, p256_signature_type, webauthn_signature_type,
}

-- What the validators of an envelope promise.
pub record IsEnvelope (e : Envelope) : Type 0 where
  pub length_r : length e.r ≡ 32
  pub length_s : length e.s ≡ 32
  pub length_x : length e.pub_key_x ≡ 32
  pub length_y : length e.pub_key_y ≡ 32
  pub r_range : (0 < from_bytes e.r) × (from_bytes e.r < p256_n)
  pub s_range : (0 < from_bytes e.s) × (from_bytes e.s ≤ p256_half_n)

pub validate_envelope-IsEnvelope : (e : Envelope) → validate_envelope e ≡ ok tt → IsEnvelope e
unfolding validate_envelope
validate_envelope-IsEnvelope e h = ground arith

pub validate_envelope_lem : (e : Envelope) → IsEnvelope e → validate_envelope e ≡ ok tt
unfolding validate_envelope
validate_envelope_lem e h = ground arith

-- `b[i:j]`
abbrev slice : ℕ → ℕ → Bytes → Bytes
slice i j b = drop i (take j b)

-- The parts of a P-256 signature at the node's offsets.
pub record P256Parts (sig : P256Signature) (b : Bytes) : Type 0 where
  pub size : length b ≡ 130
  pub type_byte : take 1 b ≡ p256_signature_type ∷ []
  pub r_at : slice 1 33 b ≡ sig.r
  pub s_at : slice 33 65 b ≡ sig.s
  pub x_at : slice 65 97 b ≡ sig.pub_key_x
  pub y_at : slice 97 129 b ≡ sig.pub_key_y
  pub pre_hash_at : drop 129 b ≡ flag sig.pre_hash

-- The bytes of a P-256 signature with valid fields are 130: the type byte 0x01, then r, s and the
-- two coordinates of the public key at the offsets 1, 33, 65 and 97, then the pre-hash flag.
pub p256_to_bytes-P256Parts :
    (sig : P256Signature) → IsEnvelope sig.envelope → P256Parts sig (p256_to_bytes sig)
unfolding p256_to_bytes
p256_to_bytes-P256Parts sig h =
    let t = p256_signature_type ∷ [] in
    let r = sig.r in
    let s = sig.s in
    let x = sig.pub_key_x in
    let y = sig.pub_key_y in
    let f = flag sig.pre_hash in
    let n1 : length (t ++ r) ≡ 33 = omega (arith, h.length_r) in
    let n2 : length ((t ++ r) ++ s) ≡ 65 =
      omega (arith, n1, h.length_s, length-append (t ++ r) s) in
    let n3 : length (((t ++ r) ++ s) ++ x) ≡ 97 =
      omega (arith, n2, h.length_x, length-append ((t ++ r) ++ s) x) in
    let n4 : length ((((t ++ r) ++ s) ++ x) ++ y) ≡ 129 =
      omega (arith, n3, h.length_y, length-append (((t ++ r) ++ s) ++ x) y) in
    let whole : ((((t ++ r) ++ s) ++ x) ++ y) ++ f ≡ t ++ (r ++ (s ++ (x ++ (y ++ f)))) =
      simp append_assoc in
    record {
      size = omega (
        arith,
        n4,
        length-append ((((t ++ r) ++ s) ++ x) ++ y) f,
        ap (λ (b : Bytes). length b) whole,
      );
      type_byte = refl;
      r_at = drop-take-append 1 32 t r (s ++ (x ++ (y ++ f))) refl h.length_r;
      s_at = drop-take-append 33 32 (t ++ r) s (x ++ (y ++ f)) n1 h.length_s;
      x_at = simp append_assoc at (drop-take-append 65 32 ((t ++ r) ++ s) x (y ++ f) n2 h.length_x);
      y_at = simp append_assoc at (drop-take-append 97 32 (((t ++ r) ++ s) ++ x) y f n3 h.length_y);
      pre_hash_at = simp append_assoc at (drop-append 129 ((((t ++ r) ++ s) ++ x) ++ y) f n4);
    }

length_key :
    (e : Envelope) → IsEnvelope e → length (e.r ++ (e.s ++ (e.pub_key_x ++ e.pub_key_y))) ≡ 128
length_key e h = omega (
  arith,
  h.length_r,
  h.length_s,
  h.length_x,
  h.length_y,
  length-append e.r (e.s ++ (e.pub_key_x ++ e.pub_key_y)),
  length-append e.s (e.pub_key_x ++ e.pub_key_y),
  length-append e.pub_key_x e.pub_key_y,
)

-- The parts of a WebAuthn signature: the client data fills what the fixed parts leave.
pub record WebAuthnParts (sig : WebAuthnSignature) (b : Bytes) : Type 0 where
  pub size : length b ≡ 166 + length sig.client_data_json
  pub type_byte : take 1 b ≡ webauthn_signature_type ∷ []
  pub auth_at : slice 1 38 b ≡ sig.authenticator_data
  pub json_at : slice 38 (38 + length sig.client_data_json) b ≡ sig.client_data_json
  pub tail_at :
      drop (38 + length sig.client_data_json) b
      ≡ sig.r ++ (sig.s ++ (sig.pub_key_x ++ sig.pub_key_y))

-- The bytes of a WebAuthn signature with valid fields are the type byte 0x02, 37 bytes of
-- authenticator data, the client data, and 128 bytes of r, s and the public key.
pub webauthn_to_bytes-WebAuthnParts :
    (sig : WebAuthnSignature)
    → IsEnvelope sig.envelope
    → length sig.authenticator_data ≡ 37
    → WebAuthnParts sig (webauthn_to_bytes sig)
unfolding webauthn_to_bytes
webauthn_to_bytes-WebAuthnParts sig h ha =
    let t = webauthn_signature_type ∷ [] in
    let a = sig.authenticator_data in
    let c = sig.client_data_json in
    let k = sig.r ++ (sig.s ++ (sig.pub_key_x ++ sig.pub_key_y)) in
    let na : length (t ++ a) ≡ 38 = omega (arith, ha) in
    let nk : length k ≡ 128 = length_key sig.envelope h in
    record {
      size = omega (arith, ha, nk, length-append a (c ++ k), length-append c k);
      type_byte = refl;
      auth_at = drop-take-append 1 37 t a (c ++ k) refl ha;
      json_at = simp append_assoc at (drop-take-append 38 (length c) (t ++ a) c k na refl);
      tail_at = simp append_assoc at (drop-append-append 38 (length c) (t ++ a) c k na refl);
    }
