-- ===== src/Python/Utf8.antt =====
-- `str.encode()`: UTF-8.
use tempo_py.Prelude.{
  ℕ, ◌+◌, ◌/◌, ◌%◌, ◌≡◌, ◌<◌, ◌&&◌, refl, Bool, true, false, ltb, leb, if◌then◌else◌, [], ◌∷◌, ◌++◌,
  Result, ok, err, value_error, ◌>>=◌, All, arith,
}
use tempo_py.Python.Bytes.{Bytes, Str}

abbrev pub is_surrogate : ℕ → Bool
is_surrogate c = leb 0xd800 c && ltb c 0xe000

-- The bytes of one code point. UnicodeEncodeError is a ValueError.
unfoldable pub encode_char : ℕ → Result Bytes
encode_char c =
    if ltb c 0x80
    then ok (c ∷ [])
    else if ltb c 0x800
    then ok ((192 + c / 64) ∷ (128 + c % 64) ∷ [])
    else if is_surrogate c
    then err value_error
    else if ltb c 0x10000
    then ok ((224 + c / 4096) ∷ (128 + c / 64 % 64) ∷ (128 + c % 64) ∷ [])
    else ok ((240 + c / 262144) ∷ (128 + c / 4096 % 64) ∷ (128 + c / 64 % 64) ∷ (128 + c % 64) ∷ [])

unfoldable pub encode : Str → Result Bytes
unfolding encode_char
encode [] = ok []
encode (c ∷ cs) = do b ← encode_char c; bs ← encode cs; ok (b ++ bs)

-- ASCII text is its own encoding.
pub encode_ascii : (s : Str) → All (λ c. c < 128) s → encode s ≡ ok s
unfolding encode encode_char
encode_ascii [] h = refl
encode_ascii (c ∷ cs) h = ground (arith, encode_ascii cs h.1, h.0)

-- A code point that is no surrogate.
abbrev pub IsScalar : ℕ → Type 0
IsScalar c = (c < 0x110000) × (is_surrogate c ≡ false)

IsReturned : Result Bytes → Type 0
IsReturned r = (b : Bytes) × (r ≡ ok b)

returned : (b : Bytes) → IsReturned (ok b)
unfolding IsReturned
returned b = (b, refl)

by_test :
    (test : Bool) (b : Bytes) (y : Result Bytes)
    → IsReturned y
    → IsReturned (if test then ok b else y)
by_test true b y h = returned b
by_test false b y h = h

encode_char-eq-ok : (c : ℕ) → IsScalar c → IsReturned (encode_char c)
unfolding encode_char
encode_char-eq-ok c h = rw h.1 (
    by_test (ltb c 0x80) (c ∷ []) _ (
      by_test (ltb c 0x800) ((192 + c / 64) ∷ (128 + c % 64) ∷ []) _ (
        by_test (ltb c 0x10000) ((224 + c / 4096) ∷ (128 + c / 64 % 64) ∷ (128 + c % 64) ∷ []) _
          (returned _))))

-- Every text without surrogates can be encoded.
pub encode-eq-ok : (s : Str) → All IsScalar s → (b : Bytes) × (encode s ≡ ok b)
unfolding encode IsReturned
encode-eq-ok [] h = ([], refl)
encode-eq-ok (c ∷ cs) h =
    let (b, e) = encode_char-eq-ok c h.0 in
    let (bs, es) = encode-eq-ok cs h.1 in (b ++ bs, rw (e, es) refl)
