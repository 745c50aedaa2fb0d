-- ===== src/Python/Text.antt =====
-- `str.join` and `str` of a number that is not negative.
pub mod Laws
use tempo_py.Prelude.{ℕ, zero, suc, ◌+◌, ◌/◌, ◌%◌, List, [], ◌∷◌, ◌++◌, ◌==◌, if◌then◌else◌}
use tempo_py.Python.Bytes.{Str}

-- `separator.join(parts)`
unfoldable pub join : Str → List Str → Str
join separator [] = []
join separator (x ∷ []) = x
join separator (x ∷ y ∷ parts) = x ++ (separator ++ join separator (y ∷ parts))

abbrev pub digit : ℕ → ℕ
digit d = b'0' + d

-- The digits of `n` in front of `behind`.
unfoldable pub decimal_fuel : ℕ → ℕ → Str → Str
decimal_fuel zero n behind = digit (n % 10) ∷ behind
decimal_fuel (suc f) n behind =
    let rest = decimal_fuel f (n / 10) (digit (n % 10) ∷ behind) in
    if n / 10 == 0 then digit (n % 10) ∷ behind else rest

-- `str(n)`; each round leaves a tenth of `n`, so `n` rounds are enough.
unfoldable pub decimal : ℕ → Str
unfolding decimal_fuel
decimal n = decimal_fuel n n []
