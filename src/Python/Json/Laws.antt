-- ===== src/Python/Json/Laws.antt =====
-- A reader of JSON text finds what `json.dumps` writes.
use tempo_py.Prelude.{
  ℕ, ◌+◌, ◌-◌, ◌*◌, ◌/◌, ◌%◌, ◌≡◌, ◌<◌, ◌≤◌, ◌==◌, ◌&&◌, refl, ap, sym, Bool, true, false, leb, ltb,
  if◌then◌else◌, List, [], ◌∷◌, ◌++◌, append_assoc, Option, none, some, All, arith, Bool-cases, inl,
  inr,
}
use tempo_py.Python.Bytes.{Str, hex_digit}
use tempo_py.Python.Utf8.{is_surrogate, IsScalar}
use tempo_py.Python.Json.{
  quote, backslash, utf16, escape_unit, escape_char, escape_units, escape_text,
}
use tempo_py.Python.Json.Read.{
  Mode, plain, go, hex_value, step, step_escaped, read_units, put, combine, is_pair,
}

pub hex_value-hex_digit : (d : ℕ) → d < 16 → hex_value (hex_digit d) ≡ some d
unfolding hex_value hex_digit
hex_value-hex_digit d h = ground arith

put-nil : (o : Option (List ℕ × Str)) → put [] o ≡ o
put-nil none = refl
put-nil (some out) = refl

put-put : (us vs : List ℕ) (o : Option (List ℕ × Str)) → put us (put vs o) ≡ put (us ++ vs) o
put-put us vs none = refl
put-put us vs (some out) = ap (λ (ws : List ℕ). some (ws, out.1)) (sym (append_assoc us vs out.0))

four_digits :
    (u : ℕ)
    → u < 0x10000
    → (((0 * 16 + u / 4096 % 16) * 16 + u / 256 % 16) * 16 + u / 16 % 16) * 16 + u % 16 ≡ u
four_digits u h = omega arith

read-escape_unit :
    (u : ℕ) (rest : Str)
    → u < 0x10000
    → read_units plain (escape_unit u ++ rest) ≡ put (u ∷ []) (read_units plain rest)
unfolding read_units escape_unit step step_escaped
read-escape_unit u rest h =
    rw
      (
        hex_value-hex_digit (u / 4096 % 16) (omega arith),
        hex_value-hex_digit (u / 256 % 16) (omega arith),
        hex_value-hex_digit (u / 16 % 16) (omega arith),
        hex_value-hex_digit (u % 16) (omega arith),
        four_digits u h,
      )
      (simp put-nil)

read-escape_units :
    (us : List ℕ) (rest : Str)
    → All (λ u. u < 0x10000) us
    → read_units plain (escape_units us ++ rest) ≡ put us (read_units plain rest)
unfolding escape_units
read-escape_units [] rest h = sym (put-nil _)
read-escape_units (u ∷ us) rest h =
    rw
      (
        append_assoc (escape_unit u) (escape_units us) rest,
        read-escape_unit u (escape_units us ++ rest) h.0,
        read-escape_units us rest h.1,
        put-put (u ∷ []) us (read_units plain rest),
      )
      refl

utf16-All : (c : ℕ) → c < 0x110000 → All (λ u. u < 0x10000) (utf16 c)
unfolding utf16
utf16-All c h = elim (Bool-cases (ltb c 0x10000)) [
  | inl e ↦ rw e (ground arith, tt)
  | inr e ↦ rw e (omega arith, (omega arith, tt))
]

utf16_unit : (c : ℕ) → c < 0x10000 → utf16 c ≡ c ∷ []
unfolding utf16
utf16_unit c h = ground arith

read_short :
    (c letter : ℕ) (rest : Str)
    → step_escaped letter ≡ go (c ∷ []) plain
    → read_units plain (backslash ∷ letter ∷ rest) ≡ put (c ∷ []) (read_units plain rest)
unfolding read_units step
read_short c letter rest h = rw (h, put-nil) refl

read_go :
    (m : Mode) (c : ℕ) (rest : Str) (us : List ℕ) (next : Mode)
    → step m c ≡ go us next
    → read_units m (c ∷ rest) ≡ put us (read_units next rest)
unfolding read_units
read_go m c rest us next e = rw (read_units, e) refl

module _ (c : ℕ) (rest : Str) where
  -- The reader takes the text for the character `c`, and goes on behind it.
  abbrev Reads : Str → Type 0
  Reads written = read_units plain (written ++ rest) ≡ put (utf16 c) (read_units plain rest)

  by_test :
      (test : Bool) (x y : Str)
      → (test ≡ true → Reads x)
      → (test ≡ false → Reads y)
      → Reads (if test then x else y)
  by_test true x y f g = f refl
  by_test false x y f g = g refl

  short :
      (d letter : ℕ)
      → (c == d) ≡ true
      → d < 0x10000
      → step_escaped letter ≡ go (d ∷ []) plain
      → Reads (backslash ∷ letter ∷ [])
  short d letter e h k =
      let same : c ≡ d = ground arith in
      rw (utf16_unit c (omega arith), same) (read_short d letter rest k)

  step_itself :
      (c == quote) ≡ false
      → (c == backslash) ≡ false
      → (leb b' ' c && leb c b'~') ≡ true
      → step plain c ≡ go (utf16 c) plain
  unfolding step
  step_itself h1 h2 h3 = ground arith

  itself :
      (c == quote) ≡ false
      → (c == backslash) ≡ false
      → (leb b' ' c && leb c b'~') ≡ true
      → Reads (c ∷ [])
  itself h1 h2 h3 = read_go plain c rest (utf16 c) plain (step_itself h1 h2 h3)

read-escape_char : (c : ℕ) (rest : Str) → c < 0x110000 → Reads c rest (escape_char c)
unfolding escape_char step_escaped
read-escape_char c rest h =
    by_test c rest _ _ _ (λ e. short c rest quote quote e (omega arith) refl)
      λ ne_quote.
        by_test c rest _ _ _ (λ e. short c rest backslash backslash e (omega arith) refl)
          λ ne_back. by_test c rest _ _ _ (itself c rest ne_quote ne_back) λ e0.
            by_test c rest _ _ _ (λ e. short c rest 8 b'b' e (omega arith) refl)
              λ e1.
                by_test c rest _ _ _ (λ e. short c rest 9 b't' e (omega arith) refl)
                  λ e2.
                    by_test c rest _ _ _ (λ e. short c rest 10 b'n' e (omega arith) refl)
                      λ e3.
                        by_test c rest _ _ _ (λ e. short c rest 12 b'f' e (omega arith) refl)
                          λ e4.
                            by_test c rest _ _ _ (λ e. short c rest 13 b'r' e (omega arith) refl)
                              λ e5. read-escape_units (utf16 c) rest (utf16-All c h)

abbrev pub utf16_text : Str → List ℕ
utf16_text [] = []
utf16_text (c ∷ cs) = utf16 c ++ utf16_text cs

pub read-escape_text :
    (s rest : Str)
    → All (λ c. c < 0x110000) s
    → read_units plain (escape_text s ++ (quote ∷ rest)) ≡ some (utf16_text s, rest)
unfolding escape_text read_units step
read-escape_text [] rest h = refl
read-escape_text (c ∷ cs) rest h =
    rw
      (
        append_assoc (escape_char c) (escape_text cs) (quote ∷ rest),
        read-escape_char c (escape_text cs ++ (quote ∷ rest)) h.0,
        read-escape_text cs rest h.1,
      )
      refl

low_half :
    (c : ℕ)
    → 0x10000 ≤ c
    → c < 0x110000
    → is_pair (0xd800 + (c - 0x10000) / 1024 % 1024) (0xdc00 + (c - 0x10000) % 1024) ≡ true
low_half c h h1 = ground arith

whole_pair :
    (c : ℕ)
    → 0x10000 ≤ c
    → c < 0x110000
    → 0x10000
        + (0xd800 + (c - 0x10000) / 1024 % 1024 - 0xd800) * 1024
        + (0xdc00 + (c - 0x10000) % 1024 - 0xdc00)
      ≡ c
whole_pair c h h1 = omega arith

combine-unit : (c : ℕ) (us : List ℕ) → is_surrogate c ≡ false → combine (c ∷ us) ≡ c ∷ combine us
unfolding combine
combine-unit c [] h = refl
combine-unit c (v ∷ us) h = let no : is_pair c v ≡ false = ground arith in rw (combine, no) refl

combine-pair :
    (c : ℕ) (us : List ℕ) → 0x10000 ≤ c → c < 0x110000 → combine (utf16 c ++ us) ≡ c ∷ combine us
unfolding utf16 combine
combine-pair c us h h1 =
    let wide : ltb c 0x10000 ≡ false = ground arith in
    rw (wide, combine, low_half c h h1, whole_pair c h h1) refl

pub combine-utf16_text : (s : Str) → All IsScalar s → combine (utf16_text s) ≡ s
unfolding combine
combine-utf16_text [] h = refl
combine-utf16_text (c ∷ cs) h = elim (Bool-cases (ltb c 0x10000)) [
  | inl e ↦
      rw
        (
          utf16_unit c (ground arith),
          combine-unit c (utf16_text cs) h.0.1,
          combine-utf16_text cs h.1,
        )
        refl
  | inr e ↦ rw (combine-pair c (utf16_text cs) (ground arith) h.0.0, combine-utf16_text cs h.1) refl
]
