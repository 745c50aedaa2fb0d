-- ===== src/Python/Json/Objects.antt =====
-- A reader of flat JSON objects finds the members that `json.dumps` writes.
use tempo_py.Prelude.{
  ℕ, zero, suc, ◌≡◌, ◌≤◌, ◌<◌, refl, ap, true, false, List, [], ◌∷◌, ◌++◌, append_assoc, length,
  length-append, Option, some, All, arith,
}
use tempo_py.Python.Bytes.{Str, eqb}
use tempo_py.Python.Base64.Decode.{◌>>=◌}
use tempo_py.Python.Json.{
  Value, text, boolean, quote, escape_text, write_text, write_value, write_member, write_members,
  dumps,
}
use tempo_py.Python.Json.Read.{read_text, read_value, read_member, read_members, read_object}
use tempo_py.Python.Utf8.{IsScalar}
use tempo_py.Python.Json.Laws.{read-escape_text, combine-utf16_text}

abbrev pub IsText : Str → Type 0
IsText s = All IsScalar s

abbrev pub IsValue : Value → Type 0
IsValue (text s) = IsText s
IsValue (boolean b) = Unit {0}

abbrev pub IsMember : Str × Value → Type 0
IsMember (key, value) = IsText key × IsValue value

in_range : (s : Str) → IsText s → All (λ c. c < 0x110000) s
in_range [] h = tt
in_range (c ∷ cs) h = (h.0.0, in_range cs h.1)

read-write_text : (s rest : Str) → IsText s → read_text (write_text s ++ rest) ≡ some (s, rest)
unfolding read_text write_text
read-write_text s rest h =
    rw
      (
        append_assoc (escape_text s) (quote ∷ []) rest,
        read-escape_text s rest (in_range s h),
        combine-utf16_text s h,
      )
      refl

read-write_value :
    (v : Value) (rest : Str) → IsValue v → read_value (write_value v ++ rest) ≡ some (v, rest)
unfolding read_value write_value write_text
read-write_value (text s) rest h =
    ap (λ (o : Option (Str × Str)). o >>= λ out. some (text out.0, out.1))
      (read-write_text s rest h)
read-write_value (boolean true) rest h = refl
read-write_value (boolean false) rest h = refl

read-write_member :
    (m : Str × Value) (rest : Str)
    → IsMember m
    → read_member (write_member m ++ rest) ≡ some (m, rest)
unfolding read_member
read-write_member (key, value) rest h =
    rw
      (
        append_assoc (write_text key) (b':' ∷ write_value value) rest,
        read-write_text key (b':' ∷ write_value value ++ rest) h.0,
        read-write_value value rest h.1,
      )
      refl

read-write_members :
    (fuel : ℕ) (m : Str × Value) (ms : List (Str × Value))
    → All IsMember (m ∷ ms)
    → length (m ∷ ms) ≤ fuel
    → read_members fuel (write_members (m ∷ ms)) ≡ some (m ∷ ms)
unfolding read_members write_members eqb
read-write_members zero m ms h n = absurd (omega arith)
read-write_members (suc fuel) m [] h n = rw (read-write_member m (b'}' ∷ []) h.0) refl
read-write_members (suc fuel) m (m1 ∷ ms) h n =
    rw (read-write_member m (b',' ∷ write_members (m1 ∷ ms)) h.0)
      (rw (read-write_members fuel m1 ms h.1 (omega arith)) refl)

length-write_members : (ms : List (Str × Value)) → length ms ≤ length (write_members ms)
unfolding write_members
length-write_members [] = omega arith
length-write_members (m ∷ []) = omega (arith, length-append (write_member m) (b'}' ∷ []))
length-write_members (m ∷ n ∷ ms) = omega (
  arith,
  length-append (write_member m) (b',' ∷ write_members (n ∷ ms)),
  length-write_members (n ∷ ms),
)

-- What is written is read.
pub read-dumps :
    (m : Str × Value) (ms : List (Str × Value))
    → All IsMember (m ∷ ms)
    → read_object (dumps (m ∷ ms)) ≡ some (m ∷ ms)
unfolding read_object dumps
read-dumps m ms h = read-write_members _ m ms h (length-write_members (m ∷ ms))
