-- ===== src/Python/Text/Laws.antt =====
-- Decimal text is read back as its number, and two numbers with the same text are the same.
use tempo_py.Prelude.{
  ℕ, zero, suc, ◌+◌, ◌-◌, ◌*◌, ◌/◌, ◌%◌, ◌≡◌, ◌≤◌, refl, sym, ◌∙◌, ap, List, [], ◌∷◌, ◌++◌,
  append_assoc, ◌==◌, Bool-cases, inl, inr, arith,
}
use tempo_py.Python.Bytes.{Str}
use tempo_py.Python.Text.{join, decimal, decimal_fuel, digit}

-- The number that digits stand for, most significant first.
unfoldable pub number_after : ℕ → Str → ℕ
number_after acc [] = acc
number_after acc (c ∷ cs) = number_after (acc * 10 + (c - b'0')) cs

number_after-decimal_fuel :
    (f n : ℕ) (behind : Str)
    → n ≤ f
    → number_after 0 (decimal_fuel f n behind) ≡ number_after n behind
unfolding decimal_fuel number_after
number_after-decimal_fuel zero n behind h = ap (λ k. number_after k behind) (omega arith)
number_after-decimal_fuel (suc f) n behind h = elim (Bool-cases (n / 10 == 0)) [
  | inl e ↦ rw e (ap (λ k. number_after k behind) (ground (arith, e)))
  | inr e ↦ rw e (
      number_after-decimal_fuel f (n / 10) (digit (n % 10) ∷ behind) (ground (arith, e))
      ∙ ap (λ k. number_after k behind) (omega arith))
]

pub number_after-decimal : (n : ℕ) → number_after 0 (decimal n) ≡ n
unfolding decimal number_after
number_after-decimal n = number_after-decimal_fuel n n [] (omega arith)

pub decimal-injective : (m n : ℕ) → decimal m ≡ decimal n → m ≡ n
decimal-injective m n e =
    sym (number_after-decimal m) ∙ ap (number_after 0) e ∙ number_after-decimal n

-- A join of two runs of parts, neither empty, has the separator once more between them.
pub join-append :
    (sep : Str) (x : Str) (xs : List Str) (y : Str) (ys : List Str)
    → join sep ((x ∷ xs) ++ (y ∷ ys)) ≡ join sep (x ∷ xs) ++ (sep ++ join sep (y ∷ ys))
unfolding join
join-append sep x [] y ys = refl
join-append sep x (x' ∷ xs) y ys = rw (join-append sep x' xs y ys, append_assoc, append_assoc) refl
