-- ===== src/Python/Ints/Laws.antt =====
-- Writing an integer as bytes and reading it back.
use native.Mathlib.Nat.{pow-suc, zero-add}
use tempo_py.Prelude.{
  ℕ, zero, suc, ◌+◌, ◌*◌, ◌/◌, ◌%◌, ◌^◌, ◌<◌, ◌≤◌, ◌≡◌, refl, sym, ap, ◌∙◌, [], ◌∷◌, ◌++◌,
  append_assoc, append-nil, length, length-append, All-append, ok, arith,
}
use tempo_py.Prelude.Int.{pos}
use tempo_py.Python.Bytes.{Bytes, IsBytes}
use tempo_py.Python.Ints.{big_endian, to_bytes, from_bytes_after, from_bytes}

pub length-big_endian : (k n : ℕ) → length (big_endian k n) ≡ k
unfolding big_endian
length-big_endian zero n = refl
length-big_endian (suc k) n =
    omega
      (arith, length-append (big_endian k (n / 256)) (n % 256 ∷ []), length-big_endian k (n / 256))

pub big_endian-IsBytes : (k n : ℕ) → IsBytes (big_endian k n)
unfolding big_endian
big_endian-IsBytes zero n = tt
big_endian-IsBytes (suc k) n =
    All-append _ (big_endian k (n / 256)) _ (big_endian-IsBytes k (n / 256)) (omega arith)

from_bytes_after-snoc :
    (acc : ℕ) (bs : Bytes) (b : ℕ)
    → from_bytes_after acc (bs ++ (b ∷ [])) ≡ from_bytes_after acc bs * 256 + b
unfolding from_bytes_after
from_bytes_after-snoc acc [] b = refl
from_bytes_after-snoc acc (x ∷ bs) b = from_bytes_after-snoc (acc * 256 + x) bs b

pub from_bytes-big_endian : (k n : ℕ) → n < 256 ^ k → from_bytes (big_endian k n) ≡ n
unfolding from_bytes big_endian
from_bytes-big_endian zero n h = omega arith
from_bytes-big_endian (suc k) n h = omega (
  arith,
  from_bytes_after-snoc 0 (big_endian k (n / 256)) (n % 256),
  pow-suc 256 k,
  from_bytes-big_endian k (n / 256) (omega (arith, pow-suc 256 k)),
)

snoc_digit :
    (k acc b : ℕ) (bs : Bytes)
    → b < 256
    → big_endian (suc k) (acc * 256 + b) ++ bs ≡ big_endian k acc ++ (b ∷ bs)
unfolding big_endian
snoc_digit k acc b bs h =
    let q : (acc * 256 + b) / 256 ≡ acc = omega arith in
    let r : (acc * 256 + b) % 256 ≡ b = omega arith in rw (q, r, append_assoc)

big_endian-from_bytes_after :
    (k acc : ℕ) (bs : Bytes)
    → IsBytes bs
    → big_endian (length bs + k) (from_bytes_after acc bs) ≡ big_endian k acc ++ bs
unfolding from_bytes_after
big_endian-from_bytes_after k acc [] h = rw (zero-add, append-nil)
big_endian-from_bytes_after k acc (b ∷ bs) h =
    ap (λ (m : ℕ). big_endian m (from_bytes_after (acc * 256 + b) bs)) (omega arith)
    ∙ big_endian-from_bytes_after (suc k) (acc * 256 + b) bs h.1
    ∙ snoc_digit k acc b bs h.0

pub big_endian-from_bytes : (bs : Bytes) → IsBytes bs → big_endian (length bs) (from_bytes bs) ≡ bs
unfolding from_bytes
big_endian-from_bytes bs h =
    ap (λ (m : ℕ). big_endian m (from_bytes_after 0 bs)) (omega arith)
    ∙ big_endian-from_bytes_after 0 0 bs h
    ∙ unfold big_endian in refl

-- What fits is written without an exception.
pub to_bytes-eq-ok : (n k : ℕ) → n < 256 ^ k → to_bytes (pos n) k ≡ ok (big_endian k n)
unfolding to_bytes
to_bytes-eq-ok n k h = ground arith

bound_step :
    (acc b p q v : ℕ) → b < 256 → q ≡ p * 256 → v < (acc * 256 + b + 1) * p → v < (acc + 1) * q
bound_step acc b p q v hb hq hv =
    let small : b * p ≤ 255 * p = grind arith in
    let scaled : (acc + 1) * q ≡ (acc + 1) * (p * 256) = ap (λ (t : ℕ). (acc + 1) * t) hq in
    omega (arith, small, scaled)

from_bytes_after-lt :
    (acc : ℕ) (bs : Bytes) → IsBytes bs → from_bytes_after acc bs < (acc + 1) * 256 ^ length bs
unfolding from_bytes_after
from_bytes_after-lt acc [] h = omega arith
from_bytes_after-lt acc (b ∷ bs) h =
    bound_step acc b (256 ^ length bs) (256 ^ suc (length bs)) _ h.0 (pow-suc 256 (length bs))
      (from_bytes_after-lt (acc * 256 + b) bs h.1)

pub from_bytes-lt : (bs : Bytes) → IsBytes bs → from_bytes bs < 256 ^ length bs
unfolding from_bytes
from_bytes-lt bs h = omega (arith, from_bytes_after-lt 0 bs h)

-- Integers of one width that are written alike are equal.
pub big_endian-injective :
    (k m n : ℕ) → m < 256 ^ k → n < 256 ^ k → big_endian k m ≡ big_endian k n → m ≡ n
big_endian-injective k m n hm hn e =
    sym (from_bytes-big_endian k m hm) ∙ ap from_bytes e ∙ from_bytes-big_endian k n hn
