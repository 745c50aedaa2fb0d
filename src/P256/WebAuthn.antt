-- ===== src/P256/WebAuthn.antt =====
-- The WebAuthn assertions of tempo/p256.py: authenticator data, client data and their signing.
use tempo_py.Prelude.{false, List, [], ◌∷◌, ◌++◌, Option, none, some, Result, ok, ◌>>=◌}
use tempo_py.Prelude.Int.{ℤ, pos}
use tempo_py.Python.Bytes.{Bytes, Str, codes}
use tempo_py.Python.Ints.{to_bytes, byte}
use tempo_py.Python.Base64.{padding, urlsafe_b64encode, rstrip}
use tempo_py.Python.Utf8.{encode}
use tempo_py.Python.Json.{Value, text, boolean, dumps}
use tempo_py.External.{External}
use tempo_py.Types.{BytesLike, buffer, as_bytes}
use tempo_py.P256.Ecc.{Curve}
use tempo_py.P256.{P256Signer, WebAuthnSignature, webauthn_message_hash, sign_raw, new_webauthn}

-- `UP | UV`
abbrev pub default_flags : ℤ
default_flags = pos 0x05

-- The letters of base64url are ASCII, so that `decode` keeps them.
unfoldable pub webauthn_challenge : External → BytesLike → Result Str
webauthn_challenge ext sig_hash = do
  b ← as_bytes ext sig_hash
  ok (rstrip padding (urlsafe_b64encode b))

unfoldable pub build_authenticator_data : Curve → Str → ℤ → ℤ → Result Bytes
build_authenticator_data curve rp_id flags sign_count = do
  rp ← encode rp_id
  f ← byte flags
  n ← to_bytes sign_count 4
  ok (curve.sha256 rp ++ (f ++ n))

abbrev pub default_type_field : Str
default_type_field = codes "webauthn.get"

-- The dictionary that is written, in the order of its keys.
abbrev pub client_data_fields : Str → Str → Str → List (Str × Value)
client_data_fields type_field challenge origin =
    (codes "type", text type_field)
    ∷ (codes "challenge", text challenge)
    ∷ (codes "origin", text origin)
    ∷ (codes "crossOrigin", boolean false)
    ∷ []

unfoldable pub build_client_data_json : External → BytesLike → Str → Str → Result Bytes
unfolding webauthn_challenge
build_client_data_json ext sig_hash origin type_field = do
  challenge ← webauthn_challenge ext sig_hash
  encode (dumps (client_data_fields type_field challenge origin))

-- `origin or f"https://{rp_id}"`
unfoldable pub origin_or : Option Str → Str → Str
origin_or none rp_id = codes "https://" ++ rp_id
origin_or (some []) rp_id = codes "https://" ++ rp_id
origin_or (some (c ∷ cs)) rp_id = c ∷ cs

-- `P256Signer.sign_webauthn`
unfoldable pub sign_webauthn :
    External → Curve → P256Signer → BytesLike → Str → Option Str → ℤ → ℤ → Result WebAuthnSignature
unfolding build_authenticator_data build_client_data_json origin_or
sign_webauthn ext curve signer message_hash rp_id origin flags sign_count = do
  a ← build_authenticator_data curve rp_id flags sign_count
  c ← build_client_data_json ext message_hash (origin_or origin rp_id) default_type_field
  h ← webauthn_message_hash ext curve (buffer a) (buffer c)
  (r, s) ← sign_raw signer h
  new_webauthn ext (buffer r) (buffer s) (buffer signer.pub_key_x) (buffer signer.pub_key_y)
      (buffer a) (buffer c)
