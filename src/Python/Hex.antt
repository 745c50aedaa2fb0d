-- ===== src/Python/Hex.antt =====
-- `bytes.fromhex` and `str.removeprefix`.
use tempo_py.Prelude.{
  ℕ, ◌+◌, ◌*◌, ◌/◌, ◌%◌, ◌==◌, ◌≡◌, ◌<◌, refl, ap, ◌&&◌, ◌||◌, Bool, true, false, leb, [], ◌∷◌,
  Option, none, some, Result, ok, err, value_error, ◌>>=◌, arith,
}
use tempo_py.Python.Bytes.{Bytes, Str, IsBytes, hex, hex_digit}
use tempo_py.Python.Json.Read.{hex_value}
use tempo_py.Python.Json.Laws.{hex_value-hex_digit}

-- The whitespace that `fromhex` skips between bytes.
unfoldable pub is_ascii_space : ℕ → Bool
is_ascii_space c = (leb 9 c && leb c 13) || (c == 32)

abbrev pub hex_pair : Option ℕ → Option ℕ → Result ℕ
hex_pair (some h) (some l) = ok (h * 16 + l)
hex_pair (some h) none = err value_error
hex_pair none l = err value_error

unfoldable pub from_hex : Str → Result Bytes
from_hex [] = ok []
from_hex (c ∷ []) = elim (is_ascii_space c) [ true ↦ ok [] | false ↦ err value_error ]
from_hex (c ∷ d ∷ cs) = elim (is_ascii_space c) [
  | true ↦ from_hex (d ∷ cs)
  | false ↦ hex_pair (hex_value c) (hex_value d) >>= λ b. from_hex cs >>= λ bs. ok (b ∷ bs)
]

-- `s.removeprefix(prefix)`
unfoldable pub remove_prefix : Str → Str → Option Str
remove_prefix [] s = some s
remove_prefix (p ∷ ps) [] = none
remove_prefix (p ∷ ps) (c ∷ cs) = elim (p == c) [ true ↦ remove_prefix ps cs | false ↦ none ]

digit_visible : (d : ℕ) → d < 16 → is_ascii_space (hex_digit d) ≡ false
unfolding is_ascii_space hex_digit
digit_visible d h = ground arith

-- What `bytes.hex` writes is read.
pub from_hex-hex : (b : Bytes) → IsBytes b → from_hex (hex b) ≡ ok b
unfolding from_hex hex
from_hex-hex [] h = refl
from_hex-hex (x ∷ xs) h =
    rw
      (
        from_hex,
        digit_visible (x / 16) (omega (arith, h.0)),
        hex_value-hex_digit (x / 16) (omega (arith, h.0)),
        hex_value-hex_digit (x % 16) (omega arith),
        from_hex-hex xs h.1,
      )
      (ap (λ (y : ℕ). ok (y ∷ xs)) (omega arith))
