-- ===== src/Python/Json/Ascii.antt =====
-- `json.dumps` writes ASCII.
use tempo_py.Prelude.{
  ℕ, ◌/◌, ◌%◌, ◌≡◌, refl, ◌<◌, ◌&&◌, Bool, true, false, leb, if◌then◌else◌, List, [], ◌∷◌, ◌++◌,
  All, All-append, arith,
}
use tempo_py.Python.Bytes.{Str, hex_digit}
use tempo_py.Python.Json.{
  Value, text, boolean, quote, backslash, utf16, escape_unit, escape_char, escape_units,
  escape_text, write_text, write_value, write_member, write_members, dumps,
}

IsAscii : Str → Type 0
IsAscii s = All (λ c. c < 128) s

IsAscii-append : (s t : Str) → IsAscii s → IsAscii t → IsAscii (s ++ t)
unfolding IsAscii
IsAscii-append s t h k = All-append _ s t h k

ascii_digit : (d : ℕ) → d < 16 → hex_digit d < 128
unfolding hex_digit
ascii_digit d h = ground arith

escape_unit-IsAscii : (u : ℕ) → IsAscii (escape_unit u)
unfolding escape_unit IsAscii
escape_unit-IsAscii u = (
  omega arith,
  (
    omega arith,
    (
      ascii_digit (u / 4096 % 16) (omega arith),
      (
        ascii_digit (u / 256 % 16) (omega arith),
        (ascii_digit (u / 16 % 16) (omega arith), (ascii_digit (u % 16) (omega arith), tt)),
      ),
    ),
  ),
)

escape_units-IsAscii : (us : List ℕ) → IsAscii (escape_units us)
unfolding escape_units IsAscii
escape_units-IsAscii [] = tt
escape_units-IsAscii (u ∷ us) =
    IsAscii-append (escape_unit u) _ (escape_unit-IsAscii u) (escape_units-IsAscii us)

by_test :
    (test : Bool) (x y : Str)
    → (test ≡ true → IsAscii x)
    → IsAscii y
    → IsAscii (if test then x else y)
by_test true x y h k = h refl
by_test false x y h k = k

one : (c : ℕ) → c < 128 → IsAscii (c ∷ [])
unfolding IsAscii
one c h = (h, tt)

two : (c d : ℕ) → c < 128 → d < 128 → IsAscii (c ∷ d ∷ [])
unfolding IsAscii
two c d h k = (h, (k, tt))

escape_char-IsAscii : (c : ℕ) → IsAscii (escape_char c)
unfolding escape_char
escape_char-IsAscii c =
    by_test _ _ _ (λ e. two backslash quote (omega arith) (omega arith))
      (by_test _ _ _ (λ e. two backslash backslash (omega arith) (omega arith))
        (by_test (leb b' ' c && leb c b'~') (c ∷ []) _ (λ e. one c (ground arith))
          (by_test _ _ _ (λ e. two backslash b'b' (omega arith) (omega arith))
            (by_test _ _ _ (λ e. two backslash b't' (omega arith) (omega arith))
              (by_test _ _ _ (λ e. two backslash b'n' (omega arith) (omega arith))
                (by_test _ _ _ (λ e. two backslash b'f' (omega arith) (omega arith))
                  (by_test _ _ _ (λ e. two backslash b'r' (omega arith) (omega arith))
                    (escape_units-IsAscii (utf16 c)))))))))

escape_text-IsAscii : (s : Str) → IsAscii (escape_text s)
unfolding escape_text IsAscii
escape_text-IsAscii [] = tt
escape_text-IsAscii (c ∷ cs) =
    IsAscii-append (escape_char c) (escape_text cs) (escape_char-IsAscii c) (escape_text-IsAscii cs)

write_text-IsAscii : (s : Str) → IsAscii (write_text s)
unfolding write_text IsAscii
write_text-IsAscii s =
    (omega arith, IsAscii-append (escape_text s) _ (escape_text-IsAscii s) (omega arith, tt))

write_value-IsAscii : (v : Value) → IsAscii (write_value v)
unfolding write_value IsAscii
write_value-IsAscii (text s) = write_text-IsAscii s
write_value-IsAscii (boolean true) = ground arith
write_value-IsAscii (boolean false) = ground arith

write_member-IsAscii : (m : Str × Value) → IsAscii (write_member m)
unfolding IsAscii
write_member-IsAscii (key, value) =
    IsAscii-append (write_text key) _ (write_text-IsAscii key)
      (omega arith, write_value-IsAscii value)

write_members-IsAscii : (ms : List (Str × Value)) → IsAscii (write_members ms)
unfolding write_members IsAscii
write_members-IsAscii [] = (omega arith, tt)
write_members-IsAscii (m ∷ []) =
    IsAscii-append (write_member m) _ (write_member-IsAscii m) (omega arith, tt)
write_members-IsAscii (m ∷ n ∷ ms) =
    IsAscii-append (write_member m) _ (write_member-IsAscii m)
      (omega arith, write_members-IsAscii (n ∷ ms))

pub dumps-IsAscii : (ms : List (Str × Value)) → All (λ c. c < 128) (dumps ms)
unfolding dumps IsAscii
dumps-IsAscii ms = (omega arith, write_members-IsAscii ms)
