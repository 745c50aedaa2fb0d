-- ===== src/Python/Base64.antt =====
-- `base64.urlsafe_b64encode`, as RFC 4648 describes it, and `bytes.rstrip` of one byte.
pub mod Decode
use tempo_py.Prelude.{
  ℕ, ◌+◌, ◌-◌, ◌*◌, ◌/◌, ◌%◌, ◌==◌, Bool, true, false, ltb, if◌then◌else◌, List, [], ◌∷◌,
}
use tempo_py.Python.Bytes.{Bytes}

abbrev pub padding : ℕ
padding = b'='

-- The letter of six bits.
unfoldable pub letter : ℕ → ℕ
letter n =
    if ltb n 26
    then b'A' + n
    else if ltb n 52
    then b'a' + (n - 26)
    else if ltb n 62
    then b'0' + (n - 52)
    else if n == 62
    then b'-'
    else b'_'

unfoldable pub urlsafe_b64encode : Bytes → Bytes
unfolding letter
urlsafe_b64encode [] = []
urlsafe_b64encode (a ∷ []) = letter (a / 4) ∷ letter (a % 4 * 16) ∷ padding ∷ padding ∷ []
urlsafe_b64encode (a ∷ b ∷ []) =
    letter (a / 4) ∷ letter (a % 4 * 16 + b / 16) ∷ letter (b % 16 * 4) ∷ padding ∷ []
urlsafe_b64encode (a ∷ b ∷ c ∷ rest) =
    letter (a / 4)
    ∷ letter (a % 4 * 16 + b / 16)
    ∷ letter (b % 16 * 4 + c / 64)
    ∷ letter (c % 64)
    ∷ urlsafe_b64encode rest

abbrev pub prepend_unless : Bool → ℕ → Bytes → Bytes
prepend_unless drops x [] = if drops then [] else x ∷ []
prepend_unless drops x (y ∷ ys) = x ∷ y ∷ ys

-- `b.rstrip(c)`
unfoldable pub rstrip : ℕ → Bytes → Bytes
rstrip c [] = []
rstrip c (x ∷ xs) = prepend_unless (x == c) x (rstrip c xs)
