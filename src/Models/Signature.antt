-- ===== src/Models/Signature.antt =====
-- `Signature` of tempo/models.py: 65-byte secp256k1 signatures.
pub mod Laws
pub mod RoundTrip
use tempo_py.Prelude.{
  ℕ, ◌+◌, ◌/◌, ◌^◌, ◌==◌, ◌≡◌, refl, Bool, true, false, ◌&&◌, ◌||◌, if◌then◌else◌, List, [], ◌∷◌,
  ◌++◌, ◌<◌, Result, ok, err, value_error, ◌>>=◌, ◌>>◌, require, length, take, drop,
}
use tempo_py.Prelude.Int.{ℤ, pos, negsuc, ltb_ℤ, leb_ℤ, eqb_ℤ, ◌+ℤ◌, ◌-ℤ◌}
use tempo_py.Python.Bytes.{Bytes}
use tempo_py.Python.Ints.{byte}
use tempo_py.Python.Ints as Ints
use tempo_py.External.{Rlp, int, seq}

abbrev pub secp256k1_n : ℕ
secp256k1_n = 0xFFFFFFFFFFFFFFFFFFFFFFFFFFFFFFFEBAAEDCE6AF48A03BBFD25E8CD0364141

abbrev pub secp256k1_half_n : ℕ
secp256k1_half_n = secp256k1_n / 2

pub record Signature : Type 0 where
  pub r : ℤ
  pub s : ℤ
  pub v : ℤ

-- The tests of `_validate_sig_r`, `_validate_sig_s` and `_validate_sig_v`.
unfoldable pub is_r : ℤ → Bool
is_r r = ltb_ℤ (pos 0) r && ltb_ℤ r (pos secp256k1_n)

unfoldable pub is_low_s : ℤ → Bool
is_low_s s = ltb_ℤ (pos 0) s && leb_ℤ s (pos secp256k1_half_n)

-- `v in (0, 1)`
unfoldable pub is_parity : ℤ → Bool
is_parity v = eqb_ℤ v (pos 0) || eqb_ℤ v (pos 1)

-- `v in (0, 1, 27, 28)`
unfoldable pub is_v : ℤ → Bool
unfolding is_parity
is_v v = is_parity v || eqb_ℤ v (pos 27) || eqb_ℤ v (pos 28)

-- `Signature(r=…, s=…, v=…)` with its validators, in the order of the fields.
unfoldable pub new : ℤ → ℤ → ℤ → Result Signature
unfolding is_r is_low_s is_v
new r s v = do
  require (is_r r) value_error
  require (is_low_s s) value_error
  require (is_v v) value_error
  ok (record { r = r; s = s; v = v })

unfoldable pub y_parity : Signature → ℤ
unfolding is_parity ◌-ℤ◌
y_parity sig = if is_parity sig.v then sig.v else sig.v -ℤ pos 27

-- `r.to_bytes(32, "big") + s.to_bytes(32, "big") + bytes([v])`
unfoldable pub pack : ℤ → ℤ → ℤ → Result Bytes
unfolding byte Ints.to_bytes
pack r s v = do
  r_bytes ← Ints.to_bytes r 32
  s_bytes ← Ints.to_bytes s 32
  v_byte ← byte v
  ok (r_bytes ++ (s_bytes ++ v_byte))

unfoldable pub to_bytes : Signature → Result Bytes
to_bytes sig = pack sig.r sig.s sig.v

unfoldable pub to_canonical_bytes : Signature → Result Bytes
unfolding ◌+ℤ◌
to_canonical_bytes sig = pack sig.r sig.s (pos 27 +ℤ y_parity sig)

unfoldable pub to_rlp_list : Signature → Rlp
to_rlp_list sig = seq (int (y_parity sig) ∷ int sig.r ∷ int sig.s ∷ [])

-- `sig_bytes[64]` for the one element behind the first 64.
abbrev pub first : Bytes → ℕ
first [] = 0
first (b ∷ bs) = b

unfoldable pub from_bytes : Bytes → Result Signature
from_bytes sig_bytes = do
  require (length sig_bytes == 65) value_error
  new (pos (Ints.from_bytes (take 32 sig_bytes)))
      (pos (Ints.from_bytes (drop 32 (take 64 sig_bytes)))) (pos (first (drop 64 sig_bytes)))
