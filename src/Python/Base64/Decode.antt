-- ===== src/Python/Base64/Decode.antt =====
-- A decoder of unpadded base64url text, section 5 of RFC 4648, and that it reads what is encoded.
use tempo_py.Prelude.{
  ℕ, ◌+◌, ◌-◌, ◌*◌, ◌/◌, ◌%◌, ◌==◌, ◌≡◌, ◌<◌, ◌&&◌, refl, ap, false, leb, if◌then◌else◌, [], ◌∷◌,
  Option, none, some, arith,
}
use tempo_py.Python.Bytes.{Bytes, IsBytes}
use tempo_py.Python.Base64.{padding, letter, urlsafe_b64encode, rstrip, prepend_unless}

infixl 5 ◌>>=◌
abbrev pub ◌>>=◌ {ℓ κ} : {A : Type ℓ} {B : Type κ} → Option A → (A → Option B) → Option B
none >>= f = none
some a >>= f = f a

-- The six bits of a letter.
unfoldable pub bits : ℕ → Option ℕ
bits c =
    if leb b'A' c && leb c b'Z'
    then some (c - b'A')
    else if leb b'a' c && leb c b'z'
    then some (c - b'a' + 26)
    else if leb b'0' c && leb c b'9'
    then some (c - b'0' + 52)
    else if c == b'-'
    then some 62
    else if c == b'_'
    then some 63
    else none

-- The bytes of the text. Bits that are left over are not looked at.
unfoldable pub decode : Bytes → Option Bytes
unfolding bits
decode [] = some []
decode (p ∷ []) = none
decode (p ∷ q ∷ []) = do w ← bits p; x ← bits q; some ((w * 4 + x / 16) ∷ [])
decode (p ∷ q ∷ r ∷ []) = do
  w ← bits p
  x ← bits q
  y ← bits r
  some ((w * 4 + x / 16) ∷ (x % 16 * 16 + y / 4) ∷ [])
decode (p ∷ q ∷ r ∷ s ∷ rest) = do
  w ← bits p
  x ← bits q
  y ← bits r
  z ← bits s
  bs ← decode rest
  some ((w * 4 + x / 16) ∷ (x % 16 * 16 + y / 4) ∷ (y % 4 * 64 + z) ∷ bs)

bits-letter : (n : ℕ) → n < 64 → bits (letter n) ≡ some n
unfolding bits letter
bits-letter n h = ground arith

letter_kept : (n : ℕ) → n < 64 → (letter n == padding) ≡ false
unfolding letter
letter_kept n h = ground arith

rstrip-letter :
    (n : ℕ) (rest : Bytes)
    → n < 64
    → rstrip padding (letter n ∷ rest) ≡ letter n ∷ rstrip padding rest
unfolding rstrip
rstrip-letter n rest h = rw (letter_kept n h) (go (rstrip padding rest))
  where
    go : (ys : Bytes) → prepend_unless false (letter n) ys ≡ letter n ∷ ys
    go [] = refl
    go (y ∷ ys) = refl

first_byte : (a k : ℕ) → k < 16 → a / 4 * 4 + (a % 4 * 16 + k) / 16 ≡ a
first_byte a k h = omega arith

second_byte :
    (a b k : ℕ) → b < 256 → k < 4 → (a % 4 * 16 + b / 16) % 16 * 16 + (b % 16 * 4 + k) / 4 ≡ b
second_byte a b k h h1 = omega arith

third_byte : (b c : ℕ) → c < 256 → (b % 16 * 4 + c / 64) % 4 * 64 + c % 64 ≡ c
third_byte b c h = omega arith

-- The challenge of a WebAuthn assertion: the text without its padding.
pub decode-urlsafe_b64encode :
    (b : Bytes) → IsBytes b → decode (rstrip padding (urlsafe_b64encode b)) ≡ some b
unfolding urlsafe_b64encode decode rstrip
decode-urlsafe_b64encode [] h = refl
decode-urlsafe_b64encode (a ∷ []) h =
    rw
      (
        rstrip-letter (a / 4) (letter (a % 4 * 16) ∷ padding ∷ padding ∷ []) (omega (arith, h.0)),
        rstrip-letter (a % 4 * 16) (padding ∷ padding ∷ []) (omega arith),
        bits-letter (a / 4) (omega (arith, h.0)),
        bits-letter (a % 4 * 16) (omega arith),
      )
      (ap (λ (x : ℕ). some (x ∷ [])) (omega arith))
decode-urlsafe_b64encode (a ∷ b ∷ []) h =
    let third = letter (b % 16 * 4) ∷ padding ∷ [] in
    let second = letter (a % 4 * 16 + b / 16) ∷ third in
    rw
      (
        rstrip-letter (a / 4) second (omega (arith, h.0)),
        rstrip-letter (a % 4 * 16 + b / 16) third (omega (arith, h.1.0)),
        rstrip-letter (b % 16 * 4) (padding ∷ []) (omega arith),
        bits-letter (a / 4) (omega (arith, h.0)),
        bits-letter (a % 4 * 16 + b / 16) (omega (arith, h.1.0)),
        bits-letter (b % 16 * 4) (omega arith),
        first_byte a (b / 16) (omega (arith, h.1.0)),
      )
      (ap (λ (x : ℕ). some (a ∷ x ∷ [])) (omega (arith, h.1.0)))
decode-urlsafe_b64encode (a ∷ b ∷ c ∷ rest) h =
    let fourth = letter (c % 64) ∷ urlsafe_b64encode rest in
    let third = letter (b % 16 * 4 + c / 64) ∷ fourth in
    let second = letter (a % 4 * 16 + b / 16) ∷ third in
    rw
      (
        rstrip-letter (a / 4) second (omega (arith, h.0)),
        rstrip-letter (a % 4 * 16 + b / 16) third (omega (arith, h.1.0)),
        rstrip-letter (b % 16 * 4 + c / 64) fourth (omega (arith, h.1.1.0)),
        rstrip-letter (c % 64) (urlsafe_b64encode rest) (omega arith),
        bits-letter (a / 4) (omega (arith, h.0)),
        bits-letter (a % 4 * 16 + b / 16) (omega (arith, h.1.0)),
        bits-letter (b % 16 * 4 + c / 64) (omega (arith, h.1.1.0)),
        bits-letter (c % 64) (omega arith),
        decode-urlsafe_b64encode rest h.1.1.1,
        first_byte a (b / 16) (omega (arith, h.1.0)),
        second_byte a b (c / 64) h.1.0 (omega (arith, h.1.1.0)),
        third_byte b c h.1.1.0,
      )
      refl
