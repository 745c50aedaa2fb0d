-- ===== src/Python/Bytes.antt =====
-- `bytes`, `str` and `bytes.hex`.
use Prim.Native.Char.{code}
use Prim.Native.String.{String}
use tempo_py.Prelude.{
  ℕ, ◌+◌, ◌-◌, ◌/◌, ◌%◌, ◌<◌, ◌≡◌, ◌≢◌, refl, sym, ap, ◌∙◌, Bool, true, false, ◌&&◌, List, [], ◌∷◌,
  ltb, ◌==◌, if◌then◌else◌, All, arith,
}

-- A `bytes` value: its elements, each below 256 in a value that Python can hold.
abbrev pub Bytes : Type 0
Bytes = List ℕ

abbrev pub IsBytes : Bytes → Type 0
IsBytes b = All (λ x. x < 256) b

-- A `str` value: its code points.
abbrev pub Str : Type 0
Str = List ℕ

-- The code points of a literal. `String` has its own `[]` and `∷`.
abbrev pub codes : String → Str
codes String.[] = []
codes (String.◌∷◌ c s) = code c ∷ codes s

-- `a == b`, on `bytes` or on `str`.
unfoldable pub eqb : List ℕ → List ℕ → Bool
eqb [] [] = true
eqb [] (y ∷ ys) = false
eqb (x ∷ xs) [] = false
eqb (x ∷ xs) (y ∷ ys) = x == y && eqb xs ys

pub eqb_refl : (xs : List ℕ) → eqb xs xs ≡ true
unfolding eqb
eqb_refl [] = refl
eqb_refl (x ∷ xs) = ground (arith, eqb_refl xs)

pub eqb→eq : (xs ys : List ℕ) → eqb xs ys ≡ true → xs ≡ ys
unfolding eqb
eqb→eq [] [] h = refl
eqb→eq [] (y ∷ ys) h = cc
eqb→eq (x ∷ xs) [] h = cc
eqb→eq (x ∷ xs) (y ∷ ys) h = ground (arith, eqb→eq xs ys)

-- One hexadecimal digit, in lower case.
unfoldable pub hex_digit : ℕ → ℕ
hex_digit d = if ltb d 10 then b'0' + d else b'a' + (d - 10)

-- `b.hex()`
unfoldable pub hex : Bytes → Str
unfolding hex_digit
hex [] = []
hex (x ∷ xs) = hex_digit (x / 16) ∷ hex_digit (x % 16) ∷ hex xs

pub eqb-ne : (x y : Str) → eqb x y ≡ false → x ≢ y
eqb-ne x y e e' =
    let same : eqb x y ≡ eqb x x = ap (eqb x) (sym e') in
    let both : true ≡ false = sym (eqb_refl x) ∙ sym same ∙ e in cc (both)
