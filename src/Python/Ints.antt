-- ===== src/Python/Ints.antt =====
-- `int.to_bytes`, `int.from_bytes`, `int.bit_length` and `bytes([v])`, as Python documents them.
pub mod Laws
pub mod BitLength
use tempo_py.Prelude.{
  ℕ, zero, suc, ◌+◌, ◌*◌, ◌/◌, ◌%◌, ◌^◌, ◌<◌, List, [], ◌∷◌, ◌++◌, ltb, ◌==◌, if◌then◌else◌, Result,
  ok, err, value_error, overflow_error,
}
use tempo_py.Prelude.Int.{ℤ, pos, negsuc}
use tempo_py.Python.Bytes.{Bytes}

-- The last `k` digits of `n` to the base 256, most significant first.
unfoldable pub big_endian : ℕ → ℕ → Bytes
big_endian zero n = []
big_endian (suc k) n = big_endian k (n / 256) ++ (n % 256 ∷ [])

-- `value.to_bytes(k, "big")`
unfoldable pub to_bytes : ℤ → ℕ → Result Bytes
to_bytes (pos n) k = if ltb n (256 ^ k) then ok (big_endian k n) else err overflow_error
to_bytes (negsuc n) k = err overflow_error

unfoldable pub from_bytes_after : ℕ → Bytes → ℕ
from_bytes_after acc [] = acc
from_bytes_after acc (b ∷ bs) = from_bytes_after (acc * 256 + b) bs

-- `int.from_bytes(b, "big")`
unfoldable pub from_bytes : Bytes → ℕ
unfolding from_bytes_after
from_bytes b = from_bytes_after 0 b

-- `bytes([v])`
unfoldable pub byte : ℤ → Result Bytes
byte (pos n) = if ltb n 256 then ok (n ∷ []) else err value_error
byte (negsuc n) = err value_error

unfoldable pub bit_length_fuel : ℕ → ℕ → ℕ
bit_length_fuel zero n = 0
bit_length_fuel (suc f) n = let rest = suc (bit_length_fuel f (n / 2)) in if n == 0 then 0 else rest

-- `n.bit_length()`; each round halves `n`, so `n` rounds are enough.
unfoldable pub bit_length : ℕ → ℕ
unfolding bit_length_fuel
bit_length n = bit_length_fuel n n
