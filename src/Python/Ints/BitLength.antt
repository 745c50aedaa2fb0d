-- ===== src/Python/Ints/BitLength.antt =====
-- An integer fits in `(bit_length + 7) // 8` bytes, and in no fewer.
use native.Mathlib.Nat.{pow-suc, pow-le-pow_right}
use native.Mathlib.Numerals.{towards_suc}
use native.Mathlib.Decide.{dec_lt}
use tempo_py.Prelude.{
  ℕ, zero, suc, ◌+◌, ◌-◌, ◌*◌, ◌/◌, ◌^◌, ◌≤◌, ◌<◌, ◌≡◌, refl, ap, ◌∙◌, Bool-cases, ◌==◌, inl, inr,
  ==_iff, arith,
}
use tempo_py.Python.Ints.{bit_length_fuel, bit_length}

-- `(n.bit_length() + 7) // 8`
abbrev pub byte_length : ℕ → ℕ
byte_length n = (bit_length n + 7) / 8

bit_length_fuel-zero : (f : ℕ) → bit_length_fuel f 0 ≡ 0
unfolding bit_length_fuel
bit_length_fuel-zero zero = refl
bit_length_fuel-zero (suc f) = refl

-- What one more halving does to the bounds; `b` is the bit length of `n / 2`.
double_upper : (n b : ℕ) → n / 2 < 2 ^ b → n < 2 ^ suc b
double_upper n b h = omega (arith, pow-suc 2 b)

double_lower :
    (n b : ℕ) → 0 < n → (n / 2 ≡ 0 → b ≡ 0) → (0 < n / 2 → 2 ^ b ≤ 2 * (n / 2)) → 2 ^ suc b ≤ 2 * n
double_lower n b p z h = elim (dec_lt 0 (n / 2)) [
  | yes q ↦ omega (arith, pow-suc 2 b, h q)
  | no q ↦ rw (z (omega arith)) (omega arith)
]

bit_length_fuel_bounds :
    (f n : ℕ) → n ≤ f → (n < 2 ^ bit_length_fuel f n) × (0 < n → 2 ^ bit_length_fuel f n ≤ 2 * n)
unfolding bit_length_fuel
bit_length_fuel_bounds zero n h = rw (eq_zero) (omega arith, λ p. absurd (omega arith))
  where
    eq_zero : n ≡ 0
    eq_zero = omega arith
bit_length_fuel_bounds (suc f) n h = elim (Bool-cases (n == 0)) [
  | inl e ↦ rw e (ground (arith, (==_iff n 0).0 e), λ p. absurd (ground (arith, (==_iff n 0).0 e)))
  | inr e ↦
      let b = bit_length_fuel f (n / 2) in
      let ih = bit_length_fuel_bounds f (n / 2) (ground arith) in
      rw e (
        double_upper n b ih.0,
        λ p. double_lower n b p (λ z. ap (bit_length_fuel f) z ∙ bit_length_fuel-zero f) ih.1,
      )
]

pow_2_add_eight : (m : ℕ) → 2 ^ (m + 8) ≡ 256 * 2 ^ m
pow_2_add_eight m = simp towards_suc (omega arith)

pow_256 : (k : ℕ) → 256 ^ k ≡ 2 ^ (8 * k)
pow_256 zero = refl
pow_256 (suc k) =
    let e : 8 * suc k ≡ 8 * k + 8 = omega arith in
    rw e (omega (arith, pow-suc 256 k, pow_2_add_eight (8 * k), pow_256 k))

pow_2_pred : (b : ℕ) → 0 < b → 2 ^ b ≡ 2 * 2 ^ (b - 1)
pow_2_pred zero h = absurd (omega arith)
pow_2_pred (suc b) h = let e : suc b - 1 ≡ b = omega arith in rw e (omega (arith, pow-suc 2 b))

-- The bounds of `(b + 7) // 8` bytes from those of `b` bits.
bits_pos : (n b : ℕ) → 0 < n → n < 2 ^ b → 0 < b
bits_pos n zero p h = absurd (omega arith)
bits_pos n (suc b) p h = omega arith

bytes_of_bits :
    (n b : ℕ)
    → n < 2 ^ b
    → (0 < n → 2 ^ b ≤ 2 * n)
    → (n < 256 ^ ((b + 7) / 8)) × (0 < n → 256 ^ ((b + 7) / 8 - 1) ≤ n)
bytes_of_bits n b up low = (
  omega (
    arith,
    up,
    pow_256 ((b + 7) / 8),
    pow-le-pow_right {n = 2} (omega arith) {i = b} {j = 8 * ((b + 7) / 8)} (omega arith),
  ),
  λ p.
      let b_pos : 0 < b = bits_pos n b p up in
      omega (
        arith,
        low p,
        pow_256 ((b + 7) / 8 - 1),
        pow_2_pred b b_pos,
        pow-le-pow_right {n = 2} (omega arith) {i = 8 * ((b + 7) / 8 - 1)} {j = b - 1}
            (omega arith),
      ),
)

pub byte_length_bounds :
    (n : ℕ) → (n < 256 ^ byte_length n) × (0 < n → 256 ^ (byte_length n - 1) ≤ n)
unfolding bit_length
byte_length_bounds n =
    let h = bit_length_fuel_bounds n n (omega arith) in bytes_of_bits n (bit_length n) h.0 h.1
