-- ===== src/P256/ClientData.antt =====
-- The client data of an assertion: ASCII text that a JSON reader accepts.
use tempo_py.Prelude.{
  ℕ, ◌+◌, ◌*◌, ◌/◌, ◌%◌, ◌≡◌, ◌<◌, ◌==◌, ◌&&◌, refl, Bool, true, false, [], ◌∷◌, ok, All, arith,
  ltb,
}
use tempo_py.Python.Bytes.{Bytes, Str, codes}
use tempo_py.Python.Base64.{padding, letter, urlsafe_b64encode, rstrip, prepend_unless}
use tempo_py.Python.Utf8.{encode_ascii}
use tempo_py.Python.Json.{dumps}
use tempo_py.Python.Json.Ascii.{dumps-IsAscii}
use tempo_py.Python.Json.Objects.{IsText, IsMember}
use tempo_py.External.{External}
use tempo_py.Types.{buffer, as_bytes}
use tempo_py.P256.WebAuthn.{
  default_type_field, webauthn_challenge, client_data_fields, build_client_data_json,
}

letter_ascii : (n : ℕ) → letter n < 128
unfolding letter
letter_ascii n = ground arith

encoded_ascii : (b : Bytes) → All (λ c. c < 128) (urlsafe_b64encode b)
unfolding urlsafe_b64encode
encoded_ascii [] = tt
encoded_ascii (a ∷ []) =
    (letter_ascii (a / 4), (letter_ascii (a % 4 * 16), (omega arith, (omega arith, tt))))
encoded_ascii (a ∷ b ∷ []) = (
  letter_ascii (a / 4),
  (letter_ascii (a % 4 * 16 + b / 16), (letter_ascii (b % 16 * 4), (omega arith, tt))),
)
encoded_ascii (a ∷ b ∷ c ∷ rest) = (
  letter_ascii (a / 4),
  (
    letter_ascii (a % 4 * 16 + b / 16),
    (letter_ascii (b % 16 * 4 + c / 64), (letter_ascii (c % 64), encoded_ascii rest)),
  ),
)

All-rstrip : (c : ℕ) (b : Bytes) → All (λ x. x < 128) b → All (λ x. x < 128) (rstrip c b)
unfolding rstrip
All-rstrip c [] h = tt
All-rstrip c (x ∷ xs) h = go (x == c) (rstrip c xs) (All-rstrip c xs h.1)
  where
    go :
        (drops : Bool) (ys : Bytes)
        → All (λ y. y < 128) ys
        → All (λ y. y < 128) (prepend_unless drops x ys)
    go true [] k = tt
    go false [] k = (h.0, tt)
    go drops (y ∷ ys) k = (h.0, k)

ascii-IsText : (s : Str) → All (λ c. c < 128) s → IsText s
ascii-IsText [] h = tt
ascii-IsText (c ∷ cs) h = ((ground (arith, h.0), ground (arith, h.0)), ascii-IsText cs h.1)

abbrev is_ascii : Str → Bool
is_ascii [] = true
is_ascii (c ∷ cs) = ltb c 128 && is_ascii cs

literal-IsText : (s : Str) → is_ascii s ≡ true → IsText s
literal-IsText [] h = tt
literal-IsText (c ∷ cs) h = ((ground arith, ground arith), literal-IsText cs (ground arith))

-- The challenge of a message.
abbrev pub challenge_of : Bytes → Str
challenge_of msg = rstrip padding (urlsafe_b64encode msg)

pub fields-IsMember :
    (msg : Bytes) (origin : Str)
    → IsText origin
    → All IsMember (client_data_fields default_type_field (challenge_of msg) origin)
fields-IsMember msg origin h = (
  (literal-IsText (codes "type") refl, literal-IsText default_type_field refl),
  (
    (
      literal-IsText (codes "challenge") refl,
      ascii-IsText _ (All-rstrip padding (urlsafe_b64encode msg) (encoded_ascii msg)),
    ),
    (
      (literal-IsText (codes "origin") refl, h),
      ((literal-IsText (codes "crossOrigin") refl, tt), tt),
    ),
  ),
)

pub build_client_data_json_lem :
    (ext : External) (msg : Bytes) (origin : Str)
    → build_client_data_json ext (buffer msg) origin default_type_field
      ≡ ok (dumps (client_data_fields default_type_field (challenge_of msg) origin))
unfolding build_client_data_json webauthn_challenge as_bytes
build_client_data_json_lem ext msg origin =
    encode_ascii _ (dumps-IsAscii (client_data_fields default_type_field (challenge_of msg) origin))
