-- ===== src/Samples/Codec.antt =====
-- A concrete encoder for the objects of rlp and a reader of hexadecimal text, to instantiate the
-- libraries in the tests. The encoding has pairs of an operation and an operand, in prefix order.
use tempo_py.Prelude.{
  ℕ, zero, suc, ◌≡◌, ◌+◌, ◌-◌, ◌*◌, ◌/◌, ◌%◌, refl, ap, ◌∙◌, List, [], ◌∷◌, Option, none, some, ltb,
  if◌then◌else◌, arith,
}
use tempo_py.Prelude.Int.{pos, negsuc}
use tempo_py.Python.Bytes.{Bytes, IsBytes, Str, hex, hex_digit}
use tempo_py.Python.Ints.Laws.{big_endian-IsBytes}
use tempo_py.External.{
  Rlp, Rlps, bytes, int, list, nil, cons, wire, wires, wire_int, IsEncodable, AreEncodable,
}

unfoldable put_bytes : Bytes → Bytes → Bytes
put_bytes [] rest = 0 ∷ 0 ∷ rest
put_bytes (x ∷ b) rest = 1 ∷ x ∷ put_bytes b rest

unfoldable mutual
  unfolding put_bytes

  pub put : Rlp → Bytes → Bytes
  put (bytes b) rest = put_bytes b rest
  put (int n) rest = put_bytes (wire_int n) rest
  put (list xs) rest = puts xs rest

  puts : Rlps → Bytes → Bytes
  puts nil rest = 2 ∷ 0 ∷ rest
  puts (cons x xs) rest = 3 ∷ 0 ∷ put x (puts xs rest)

-- One operation on the stack of what stands to its right.
unfoldable step : ℕ → ℕ → List Rlp → List Rlp
step zero x stack = bytes [] ∷ stack
step (suc zero) x (bytes b ∷ stack) = bytes (x ∷ b) ∷ stack
step (suc zero) x stack = stack
step (suc (suc zero)) x stack = list nil ∷ stack
step (suc (suc (suc op))) x (y ∷ list ys ∷ stack) = list (cons y ys) ∷ stack
step (suc (suc (suc op))) x stack = stack

unfoldable read : Bytes → List Rlp
unfolding step
read [] = []
read (x ∷ []) = []
read (op ∷ x ∷ rest) = step op x (read rest)

unfoldable pub get : Bytes → Option Rlp
unfolding read
get b = elim (read b) [ [] ↦ none | x ∷ _ ↦ some x ]

read-put_bytes : (b rest : Bytes) → read (put_bytes b rest) ≡ bytes b ∷ read rest
unfolding read put_bytes
read-put_bytes [] rest = refl
read-put_bytes (x ∷ b) rest = ap (step 1 x) (read-put_bytes b rest)

mutual
  unfolding put puts wire wires read step

  read-put : (x : Rlp) (rest : Bytes) → read (put x rest) ≡ wire x ∷ read rest
  read-put (bytes b) rest = read-put_bytes b rest
  read-put (int n) rest = read-put_bytes (wire_int n) rest
  read-put (list xs) rest = read-puts xs rest

  read-puts : (xs : Rlps) (rest : Bytes) → read (puts xs rest) ≡ list (wires xs) ∷ read rest
  read-puts nil rest = refl
  read-puts (cons x xs) rest =
      ap (step 3 0) (read-put x (puts xs rest) ∙ ap (λ st. wire x ∷ st) (read-puts xs rest))

pub get-put : (x : Rlp) → get (put x []) ≡ some (wire x)
unfolding get
get-put x = rw (get, read-put x [])

put_bytes-IsBytes : (b rest : Bytes) → IsBytes b → IsBytes rest → IsBytes (put_bytes b rest)
unfolding put_bytes
put_bytes-IsBytes [] rest h hr = (omega arith, (omega arith, hr))
put_bytes-IsBytes (x ∷ b) rest h hr = (omega arith, (h.0, put_bytes-IsBytes b rest h.1 hr))

mutual
  unfolding put puts IsEncodable AreEncodable

  pub put-IsBytes : (x : Rlp) (rest : Bytes) → IsEncodable x → IsBytes rest → IsBytes (put x rest)
  put-IsBytes (bytes b) rest h hr = put_bytes-IsBytes b rest h hr
  put-IsBytes (int (pos n)) rest h hr =
      put_bytes-IsBytes (wire_int (pos n)) rest (big_endian-IsBytes _ n) hr
  put-IsBytes (int (negsuc n)) rest h hr = absurd h
  put-IsBytes (list xs) rest h hr = puts-IsBytes xs rest h hr

  puts-IsBytes :
      (xs : Rlps) (rest : Bytes) → AreEncodable xs → IsBytes rest → IsBytes (puts xs rest)
  puts-IsBytes nil rest h hr = (omega arith, (omega arith, hr))
  puts-IsBytes (cons x xs) rest h hr =
      (omega arith, (omega arith, put-IsBytes x (puts xs rest) h.0 (puts-IsBytes xs rest h.1 hr)))

unfoldable from_digit : ℕ → ℕ
from_digit c = if ltb c b'a' then c - b'0' else c - b'a' + 10

unfoldable unhex : Str → Bytes
unfolding from_digit
unhex [] = []
unhex (c ∷ []) = []
unhex (c ∷ d ∷ rest) = (from_digit c * 16 + from_digit d) ∷ unhex rest

-- `text` without its "0x", in bytes.
unfoldable pub read_hex : Str → Bytes
unfolding unhex
read_hex (c ∷ d ∷ text) = unhex text
read_hex text = []

from_digit-hex_digit : (d : ℕ) → from_digit (hex_digit d) ≡ d
unfolding from_digit hex_digit
from_digit-hex_digit d = ground arith

unhex-hex : (b : Bytes) → unhex (hex b) ≡ b
unfolding unhex hex
unhex-hex [] = refl
unhex-hex (x ∷ b) =
    rw (from_digit-hex_digit (x / 16), from_digit-hex_digit (x % 16), unhex-hex b)
      (ap (λ (y : ℕ). y ∷ b) (omega arith))

pub read_hex-hex : (c d : ℕ) (b : Bytes) → read_hex (c ∷ d ∷ hex b) ≡ b
unfolding read_hex
read_hex-hex c d b = unhex-hex b
