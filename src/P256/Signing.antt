-- ===== src/P256/Signing.antt =====
-- `P256Signer.sign` makes valid low-s signatures that verify.
use tempo_py.Prelude.{
  ℕ, ◌+◌, ◌-◌, ◌^◌, ◌≡◌, ◌≤◌, ◌<◌, ◌⊎◌, inl, inr, refl, sym, ◌∙◌, ap, subst, ok-injective, ◌≢◌,
  ◌++◌, Bool, true, false, if◌then◌else◌, ok, err, value_error, length, take, drop, length-take,
  length-drop, take-append-drop, ltb, arith, All-drop, Bool-cases,
}
use tempo_py.Prelude.Int.{pos, pos_part}
use tempo_py.Python.Bytes.{Bytes, IsBytes}
use tempo_py.Python.Ints.{big_endian, from_bytes}
use tempo_py.Python.Ints.Laws.{
  to_bytes-eq-ok, length-big_endian, from_bytes-big_endian, big_endian-from_bytes,
}
use tempo_py.External.{External}
use tempo_py.Types.{buffer, as_bytes}
use tempo_py.P256.Ecc.{Curve, EccKey}
use tempo_py.P256.{
  P256Signer, P256Signature, Envelope, p256_n, p256_half_n, low_s, sign_raw, sign_p256, new_p256,
  new_p256_signer, verify_p256, verify_envelope, convert_envelope,
}
use tempo_py.P256.Layout.{IsEnvelope, validate_envelope_lem}

-- What pycryptodome documents of a P-256 key: its coordinates fit 32 bytes, `sign` returns r and s
-- as 32 bytes each, both in (0, n), and `verify` takes the
-- signature and the twin (r, n - s) of every pair (r, s) of 32 bytes each that it takes.
pub record IsEccKey (curve : Curve) (key : EccKey) : Type 0 where
  pub x_pos : key.point_x ≡ pos (pos_part key.point_x)
  pub x_range : pos_part key.point_x < 2 ^ 256
  pub y_pos : key.point_y ≡ pos (pos_part key.point_y)
  pub y_range : pos_part key.point_y < 2 ^ 256
  pub verifier : Bytes → Bytes → Bool
  pub construct-eq-ok :
      curve.construct_point (pos_part key.point_x) (pos_part key.point_y) ≡ ok verifier
  pub length-sign : (digest : Bytes) → length digest ≡ 32 → length (key.dss_sign digest) ≡ 64
  pub sign-IsBytes : (digest : Bytes) → length digest ≡ 32 → IsBytes (key.dss_sign digest)
  pub sign_r :
      (digest : Bytes)
      → length digest ≡ 32
      → (0 < from_bytes (take 32 (key.dss_sign digest)))
        × (from_bytes (take 32 (key.dss_sign digest)) < p256_n)
  pub sign_s :
      (digest : Bytes)
      → length digest ≡ 32
      → (0 < from_bytes (drop 32 (key.dss_sign digest)))
        × (from_bytes (drop 32 (key.dss_sign digest)) < p256_n)
  pub verify-sign :
      (digest : Bytes) → length digest ≡ 32 → verifier digest (key.dss_sign digest) ≡ true
  pub verify-twin :
      (digest r s : Bytes) (n : ℕ)
      → length r ≡ 32
      → length s ≡ 32
      → verifier digest (r ++ s) ≡ true
      → n + from_bytes s ≡ p256_n
      → verifier digest (r ++ big_endian 32 n) ≡ true

-- SHA-256 digests have 32 bytes.
pub record IsSha256 (curve : Curve) : Type 0 where
  pub length-sha256 : (b : Bytes) → length (curve.sha256 b) ≡ 32

pub low_s_lem :
    (s : ℕ)
    → 0 < s
    → s < p256_n
    → (m : ℕ) × (low_s s ≡ pos m) × (0 < m) × (m ≤ p256_half_n) × ((m ≡ s) ⊎ (m + s ≡ p256_n))
unfolding low_s
low_s_lem s h k = elim (Bool-cases (ltb (p256_n - s) s)) [
  | inl e ↦ (p256_n - s, ground arith, ground arith, ground arith, inr (ground arith))
  | inr e ↦ (s, ground arith, ground arith, ground arith, inl refl)
]

-- The signer of a key, with its coordinates as 32 bytes.
abbrev pub signer_of : EccKey → P256Signer
signer_of key = record {
  key = key;
  pub_key_x = big_endian 32 (pos_part key.point_x);
  pub_key_y = big_endian 32 (pos_part key.point_y);
}

module _ (curve : Curve) (key : EccKey) (h : IsEccKey curve key) where
  pub new_p256_signer-signer_of : new_p256_signer key ≡ ok (signer_of key)
  unfolding new_p256_signer
  new_p256_signer-signer_of = rw (
    h.x_pos,
    h.y_pos,
    to_bytes-eq-ok (pos_part key.point_x) 32 (omega (arith, h.x_range)),
    to_bytes-eq-ok (pos_part key.point_y) 32 (omega (arith, h.y_range)),
  )

  module _ (digest : Bytes) (n : length digest ≡ 32) where
    abbrev r_part : Bytes
    r_part = take 32 (key.dss_sign digest)

    abbrev s_part : Bytes
    s_part = drop 32 (key.dss_sign digest)

    s_part_digits : big_endian 32 (from_bytes s_part) ≡ s_part
    s_part_digits =
        ap (λ (k : ℕ). big_endian k (from_bytes s_part))
          (omega (arith, length-drop 32 (key.dss_sign digest), h.length-sign digest n))
        ∙ big_endian-from_bytes s_part (All-drop _ 32 _ (h.sign-IsBytes digest n))

    whole : h.verifier digest (r_part ++ s_part) ≡ true
    whole = rw take-append-drop (h.verify-sign digest n)

    -- Either form of s verifies.
    pub verifies :
        (m : ℕ)
        → (m ≡ from_bytes s_part) ⊎ (m + from_bytes s_part ≡ p256_n)
        → h.verifier digest (r_part ++ big_endian 32 m) ≡ true
    verifies m (inl e) = rw (e, s_part_digits) whole
    verifies m (inr e) =
        h.verify-twin digest r_part s_part m
          (omega (arith, length-take 32 (key.dss_sign digest), h.length-sign digest n))
          (omega (arith, length-drop 32 (key.dss_sign digest), h.length-sign digest n)) whole e

    abbrev pub signed : (m : ℕ) → Envelope
    signed m = record {
      r = r_part;
      s = big_endian 32 m;
      pub_key_x = big_endian 32 (pos_part key.point_x);
      pub_key_y = big_endian 32 (pos_part key.point_y);
    }

    pub signed-IsEnvelope : (m : ℕ) → 0 < m → m ≤ p256_half_n → IsEnvelope (signed m)
    signed-IsEnvelope m lo hi = record {
      length_r = omega (arith, length-take 32 (key.dss_sign digest), h.length-sign digest n);
      length_s = length-big_endian 32 m;
      length_x = length-big_endian 32 _;
      length_y = length-big_endian 32 _;
      r_range = h.sign_r digest n;
      s_range = rw (from_bytes-big_endian 32 m (omega arith)) (lo, hi);
    }

    pub sign_raw_lem :
        (m : ℕ)
        → low_s (from_bytes s_part) ≡ pos m
        → m ≤ p256_half_n
        → sign_raw (signer_of key) digest ≡ ok (r_part, big_endian 32 m)
    unfolding sign_raw
    sign_raw_lem m e hi = rw (e, to_bytes-eq-ok m 32 (omega arith))

    pub verify-signed :
        (ext : External) (m : ℕ)
        → h.verifier digest (r_part ++ big_endian 32 m) ≡ true
        → verify_envelope ext curve (signed m) (buffer digest) ≡ ok true
    unfolding verify_envelope as_bytes
    verify-signed ext m e = rw (
      from_bytes-big_endian 32 (pos_part key.point_x) (omega (arith, h.x_range)),
      from_bytes-big_endian 32 (pos_part key.point_y) (omega (arith, h.y_range)),
      h.construct-eq-ok,
      e,
    )

-- The digest that is signed for a message.
abbrev digest_of : Curve → Bytes → Bool → Bytes
digest_of curve msg pre_hash = if pre_hash then curve.sha256 msg else msg

length-digest_of :
    (curve : Curve) (msg : Bytes) (pre_hash : Bool)
    → IsSha256 curve
    → length msg ≡ 32
    → length (digest_of curve msg pre_hash) ≡ 32
length-digest_of curve msg true h n = h.length-sha256 msg
length-digest_of curve msg false h n = n

-- What a caller of `sign` relies on: the signature has valid fields, it carries the signer's key
-- and the flag, and it verifies over the message.
pub record Signs (ext : External) (curve : Curve) (signer : P256Signer) (msg : Bytes)
    (pre_hash : Bool) : Type 0 where
  pub sig : P256Signature
  pub returned : sign_p256 ext curve signer (buffer msg) pre_hash ≡ ok sig
  pub valid : IsEnvelope sig.envelope
  pub same_x : sig.pub_key_x ≡ signer.pub_key_x
  pub same_y : sig.pub_key_y ≡ signer.pub_key_y
  pub same_flag : sig.pre_hash ≡ pre_hash
  pub verified : verify_p256 ext curve sig (buffer msg) ≡ ok true

sign-signer_of :
    (ext : External) (curve : Curve) (key : EccKey) (msg : Bytes) (pre_hash : Bool)
    → IsEccKey curve key
    → IsSha256 curve
    → length msg ≡ 32
    → Signs ext curve (signer_of key) msg pre_hash
unfolding sign_p256 verify_p256 new_p256 as_bytes convert_envelope
sign-signer_of ext curve key msg pre_hash h hs n =
    let d = digest_of curve msg pre_hash in
    let nd = length-digest_of curve msg pre_hash hs n in
    let (m, e, lo, hi, twin) =
      low_s_lem (from_bytes (drop 32 (key.dss_sign d))) (h.sign_s d nd).0 (h.sign_s d nd).1 in
    let ok_env = signed-IsEnvelope curve key h d nd m lo hi in
    record {
      sig = record { envelope = signed curve key h d nd m; pre_hash = pre_hash };
      returned = rw (n, sign_raw_lem curve key h d nd m e hi, validate_envelope_lem _ ok_env);
      valid = ok_env;
      same_x = refl;
      same_y = refl;
      same_flag = refl;
      verified = verify-signed curve key h d nd ext m (verifies curve key h d nd m twin);
    }

-- Where SHA-256 digests have 32 bytes: a signer made of a key that meets the library's
-- documentation signs every 32-byte message, with or
-- without pre-hashing: `sign` raises no exception, its signature has valid fields with s in low
-- form, it carries the signer's public key, and `verify` accepts it over the message.
pub sign_p256-Signs :
    (ext : External) (curve : Curve) (key : EccKey) (signer : P256Signer) (msg : Bytes)
    (pre_hash : Bool)
    → IsEccKey curve key
    → IsSha256 curve
    → new_p256_signer key ≡ ok signer
    → length msg ≡ 32
    → Signs ext curve signer msg pre_hash
sign_p256-Signs ext curve key signer msg pre_hash h hs e n =
    let same : signer_of key ≡ signer =
      ok-injective (sym (new_p256_signer-signer_of curve key h) ∙ e) in
    subst (λ (s : P256Signer). Signs ext curve s msg pre_hash) same
      (sign-signer_of ext curve key msg pre_hash h hs n)

-- `sign` raises ValueError on bytes whose length is not 32, also where they would be pre-hashed.
pub sign_p256_wrong_length :
    (ext : External) (curve : Curve) (signer : P256Signer) (msg : Bytes) (pre_hash : Bool)
    → length msg ≢ 32
    → sign_p256 ext curve signer (buffer msg) pre_hash ≡ err value_error
unfolding sign_p256 as_bytes
sign_p256_wrong_length ext curve signer msg pre_hash h = ground arith
