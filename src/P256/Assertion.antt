-- ===== src/P256/Assertion.antt =====
-- `P256Signer.sign_webauthn` makes assertions that verify and carry the hash as their challenge.
use tempo_py.Prelude.{
  ap, ℕ, ◌^◌, ◌≡◌, ◌<◌, ◌==◌, refl, sym, ◌∙◌, ok-injective, subst, true, ◌∷◌, ◌++◌, Option, none,
  some, ok, length, arith, ltb, length-append, drop,
}
use tempo_py.Prelude.Int.{pos}
use tempo_py.Python.Bytes.{Bytes, Str, IsBytes, codes}
use tempo_py.Python.Ints.{big_endian, byte, from_bytes}
use tempo_py.Python.Ints.Laws.{to_bytes-eq-ok, length-big_endian}
use tempo_py.Python.Base64.Decode.{decode, decode-urlsafe_b64encode}
use tempo_py.Python.Utf8.{encode, encode-eq-ok}
use tempo_py.Python.Json.{dumps}
use tempo_py.Python.Json.Read.{read_object}
use tempo_py.Python.Json.Objects.{IsText, read-dumps}
use tempo_py.External.{External}
use tempo_py.Types.{buffer, as_bytes}
use tempo_py.P256.Ecc.{Curve, EccKey}
use tempo_py.P256.{
  P256Signer, WebAuthnSignature, validate_authenticator_data, webauthn_message_hash,
  webauthn_own_hash, new_p256_signer, new_webauthn, convert_envelope, verify_webauthn,
}
use tempo_py.P256.Layout.{IsEnvelope, validate_envelope_lem}
use tempo_py.P256.Signing.{
  IsEccKey, IsSha256, signer_of, new_p256_signer-signer_of, signed, signed-IsEnvelope, low_s_lem,
  sign_raw_lem, verify-signed, verifies,
}
use tempo_py.P256.WebAuthn.{
  default_type_field, client_data_fields, build_authenticator_data, origin_or, sign_webauthn,
}
use tempo_py.P256.ClientData.{challenge_of, fields-IsMember, build_client_data_json_lem}

build_authenticator_data_lem :
    (curve : Curve) (rp_id : Str) (rp : Bytes) (flags count : ℕ)
    → encode rp_id ≡ ok rp
    → flags < 256
    → count < 2 ^ 32
    → build_authenticator_data curve rp_id (pos flags) (pos count)
      ≡ ok (curve.sha256 rp ++ (flags ∷ big_endian 4 count))
unfolding build_authenticator_data byte
build_authenticator_data_lem curve rp_id rp flags count e h k =
    let narrow : ltb flags 256 ≡ true = ground arith in
    rw (e, narrow, to_bytes-eq-ok count 4 (omega (arith, k))) refl

-- What the parts of an assertion say.
pub record Asserts (curve : Curve) (sig : WebAuthnSignature) (msg : Bytes) (rp_id origin : Str)
    (flags count : ℕ) : Type 0 where
  pub rp : Bytes
  pub rp_encoded : encode rp_id ≡ ok rp
  pub authenticator : sig.authenticator_data ≡ curve.sha256 rp ++ (flags ∷ big_endian 4 count)
  pub challenge : Str
  pub client_data :
      read_object sig.client_data_json
      ≡ some (client_data_fields (codes "webauthn.get") challenge origin)
  pub challenge_reads : decode challenge ≡ some msg

pub length-authenticator_data :
    (curve : Curve) (sig : WebAuthnSignature) (msg : Bytes) (rp_id origin : Str) (flags count : ℕ)
    → IsSha256 curve
    → Asserts curve sig msg rp_id origin flags count
    → length sig.authenticator_data ≡ 37
length-authenticator_data curve sig msg rp_id origin flags count hs says = omega (
  arith,
  hs.length-sha256 says.rp,
  ap (λ (b : Bytes). length b) says.authenticator,
  length-append (curve.sha256 says.rp) (flags ∷ big_endian 4 count),
  length-big_endian 4 count,
)

pub record SignsWebauthn (ext : External) (curve : Curve) (signer : P256Signer) (msg : Bytes)
    (rp_id : Str) (origin : Option Str) (flags count : ℕ) : Type 0 where
  pub sig : WebAuthnSignature
  pub returned :
      sign_webauthn ext curve signer (buffer msg) rp_id origin (pos flags) (pos count) ≡ ok sig
  pub valid : IsEnvelope sig.envelope
  pub same_x : sig.pub_key_x ≡ signer.pub_key_x
  pub same_y : sig.pub_key_y ≡ signer.pub_key_y
  pub says : Asserts curve sig msg rp_id (origin_or origin rp_id) flags count
  pub verified : verify_webauthn ext curve sig none ≡ ok true

sign_webauthn-signer_of :
    (ext : External) (curve : Curve) (key : EccKey) (msg : Bytes) (rp_id : Str)
    (origin : Option Str) (flags count : ℕ)
    → IsEccKey curve key
    → IsSha256 curve
    → IsBytes msg
    → IsText rp_id
    → IsText (origin_or origin rp_id)
    → flags < 256
    → count < 2 ^ 32
    → SignsWebauthn ext curve (signer_of key) msg rp_id origin flags count
unfolding sign_webauthn verify_webauthn webauthn_own_hash webauthn_message_hash new_webauthn
    as_bytes convert_envelope validate_authenticator_data
sign_webauthn-signer_of ext curve key msg rp_id origin flags count h hs hm hr ho hf hc =
    let (rp, e) = encode-eq-ok rp_id hr in
    let o = origin_or origin rp_id in
    let a = curve.sha256 rp ++ (flags ∷ big_endian 4 count) in
    let c = dumps (client_data_fields default_type_field (challenge_of msg) o) in
    let d = curve.sha256 (a ++ curve.sha256 c) in
    let nd = hs.length-sha256 (a ++ curve.sha256 c) in
    let (m, em, lo, hi, twin) =
      low_s_lem (from_bytes (drop 32 (key.dss_sign d))) (h.sign_s d nd).0 (h.sign_s d nd).1 in
    let ok_env = signed-IsEnvelope curve key h d nd m lo hi in
    let size : (length a == 37) ≡ true = ground (
      arith,
      hs.length-sha256 rp,
      length-append (curve.sha256 rp) (flags ∷ big_endian 4 count),
      length-big_endian 4 count,
    ) in
    record {
      sig = record {
        envelope = signed curve key h d nd m;
        authenticator_data = a;
        client_data_json = c;
      };
      returned =
          rw
            (
              build_authenticator_data_lem curve rp_id rp flags count e hf hc,
              build_client_data_json_lem ext msg o,
              sign_raw_lem curve key h d nd m em hi,
              validate_envelope_lem _ ok_env,
              size,
            )
            refl;
      valid = ok_env;
      same_x = refl;
      same_y = refl;
      says = record {
        rp = rp;
        rp_encoded = e;
        authenticator = refl;
        challenge = challenge_of msg;
        client_data = read-dumps _ _ (fields-IsMember msg o ho);
        challenge_reads = decode-urlsafe_b64encode msg hm;
      };
      verified = verify-signed curve key h d nd ext m (verifies curve key h d nd m twin);
    }

pub sign_webauthn-SignsWebauthn :
    (ext : External) (curve : Curve) (key : EccKey) (signer : P256Signer) (msg : Bytes)
    (rp_id : Str) (origin : Option Str) (flags count : ℕ)
    → IsEccKey curve key
    → IsSha256 curve
    → new_p256_signer key ≡ ok signer
    → IsBytes msg
    → IsText rp_id
    → IsText (origin_or origin rp_id)
    → flags < 256
    → count < 2 ^ 32
    → SignsWebauthn ext curve signer msg rp_id origin flags count
sign_webauthn-SignsWebauthn ext curve key signer msg rp_id origin flags count h hs e hm hr ho hf
      hc =
    let same : signer_of key ≡ signer =
      ok-injective (sym (new_p256_signer-signer_of curve key h) ∙ e) in
    subst (λ (s : P256Signer). SignsWebauthn ext curve s msg rp_id origin flags count) same
      (sign_webauthn-signer_of ext curve key msg rp_id origin flags count h hs hm hr ho hf hc)
