-- ===== src/Transaction/Ints.antt =====
-- `_int_to_rlp_bytes`: the shortest big-endian form of a number.
use tempo_py.Prelude.{
  ℕ, zero, suc, ◌^◌, ◌==◌, ◌≡◌, ◌≢◌, ◌≤◌, refl, sym, ◌∙◌, ap, subst, [], ◌∷◌, false, ok, err,
  overflow_error, ok-injective, ok-ne-err, length, arith,
}
use tempo_py.Prelude.Int.{ℤ, pos, negsuc}
use tempo_py.Python.Bytes.{Bytes, IsBytes}
use tempo_py.Python.Ints.{
  big_endian, from_bytes, from_bytes_after, to_bytes, bit_length, bit_length_fuel,
}
use tempo_py.Python.Ints.Laws.{
  to_bytes-eq-ok, from_bytes-big_endian, big_endian-IsBytes, length-big_endian, from_bytes-lt,
}
use tempo_py.Python.Ints.BitLength.{byte_length, byte_length_bounds}
use tempo_py.External.{wire_int}
use tempo_py.Transaction.{int_to_rlp_bytes}

-- A number is written as `rlp.encode` writes it.
pub int_to_rlp_bytes-pos : (n : ℕ) → int_to_rlp_bytes (pos n) ≡ ok (wire_int (pos n))
unfolding int_to_rlp_bytes
int_to_rlp_bytes-pos zero = unfold bit_length bit_length_fuel big_endian in refl
int_to_rlp_bytes-pos (suc n) =
    let e : (suc n == 0) ≡ false = ground arith in
    rw e (to_bytes-eq-ok (suc n) (byte_length (suc n)) (byte_length_bounds (suc n)).0)

pub int_to_rlp_bytes-negsuc : (n : ℕ) → int_to_rlp_bytes (negsuc n) ≡ err overflow_error
unfolding int_to_rlp_bytes to_bytes
int_to_rlp_bytes-negsuc n = refl

pub from_bytes-wire_int : (n : ℕ) → from_bytes (wire_int (pos n)) ≡ n
from_bytes-wire_int n = from_bytes-big_endian (byte_length n) n (byte_length_bounds n).0

from_bytes_leading_zero : (b : Bytes) → from_bytes (0 ∷ b) ≡ from_bytes b
unfolding from_bytes from_bytes_after
from_bytes_leading_zero b = refl

pub wire_int-zero : wire_int (pos 0) ≡ []
unfolding bit_length bit_length_fuel big_endian
wire_int-zero = refl

length_of_rest :
    (n : ℕ) (rest : Bytes) → wire_int (pos n) ≡ 0 ∷ rest → byte_length n ≡ suc (length rest)
length_of_rest n rest e = sym (length-big_endian (byte_length n) n) ∙ ap (λ (b : Bytes). length b) e

no_leading_zero : (n : ℕ) (rest : Bytes) → wire_int (pos n) ≢ 0 ∷ rest
no_leading_zero zero rest e = cc (wire_int-zero)
no_leading_zero (suc n) rest e =
    let all = subst IsBytes e (big_endian-IsBytes (byte_length (suc n)) (suc n)) in
    let k = length_of_rest (suc n) rest e in
    let value : suc n ≡ from_bytes rest =
      sym (from_bytes-wire_int (suc n)) ∙ ap from_bytes e ∙ from_bytes_leading_zero rest in
    let low : 256 ^ length rest ≤ suc n =
      subst (λ (l : ℕ). 256 ^ l ≤ suc n) (omega (arith, k))
        ((byte_length_bounds (suc n)).1 (omega arith)) in
    absurd (omega (arith, from_bytes-lt rest all.1, value, low))

-- A number that is not negative is written without an exception, as bytes that `int.from_bytes`
-- reads back as the number and that do not begin with a zero byte; a negative number raises
-- OverflowError.
pub int_to_rlp_bytes_lem :
    ((n : ℕ)
      → (b : Bytes) × (int_to_rlp_bytes (pos n) ≡ ok b)
        × IsBytes b
        × (from_bytes b ≡ n)
        × ((rest : Bytes) → b ≢ 0 ∷ rest))
    × ((n : ℕ) → int_to_rlp_bytes (negsuc n) ≡ err overflow_error)
int_to_rlp_bytes_lem = (
  λ n. (
    wire_int (pos n),
    int_to_rlp_bytes-pos n,
    big_endian-IsBytes (byte_length n) n,
    from_bytes-wire_int n,
    no_leading_zero n,
  ),
  int_to_rlp_bytes-negsuc,
)

-- What is written determines the integer.
pub int_to_rlp_bytes-injective :
    (m n : ℤ) (b : Bytes) → int_to_rlp_bytes m ≡ ok b → int_to_rlp_bytes n ≡ ok b → m ≡ n
int_to_rlp_bytes-injective (pos m) (pos n) b hm hn = ap pos (
    sym (from_bytes-wire_int m)
    ∙ ap from_bytes
        (ok-injective (sym (int_to_rlp_bytes-pos m) ∙ hm ∙ sym hn ∙ int_to_rlp_bytes-pos n))
    ∙ from_bytes-wire_int n)
int_to_rlp_bytes-injective (negsuc m) n b hm hn =
    absurd (ok-ne-err (sym hm ∙ int_to_rlp_bytes-negsuc m))
int_to_rlp_bytes-injective (pos m) (negsuc n) b hm hn =
    absurd (ok-ne-err (sym hn ∙ int_to_rlp_bytes-negsuc n))
