-- ===== src/Python/Json/Read.antt =====
-- A reader of flat JSON objects, from RFC 8259: their values are strings and Booleans.
use tempo_py.Prelude.{
  ℕ, zero, suc, ◌+◌, ◌-◌, ◌*◌, ◌==◌, ◌&&◌, Bool, true, false, leb, ltb, if◌then◌else◌, List, [],
  ◌∷◌, ◌++◌, length, Option, none, some,
}
use tempo_py.Python.Bytes.{Str, codes, eqb}
use tempo_py.Python.Base64.Decode.{◌>>=◌}
use tempo_py.Python.Json.{Value, text, boolean, quote, backslash, utf16}

-- Where the reader stands inside a string: behind a character, behind a backslash, or with so many
-- hexadecimal digits of a code unit left to read.
pub data Mode : Type 0 where
  plain escaped : Mode
  unit : ℕ → ℕ → Mode

-- What a character does: it is refused, it closes the string, or it adds code units.
pub data Next : Type 0 where
  stop close : Next
  go : List ℕ → Mode → Next

unfoldable pub hex_value : ℕ → Option ℕ
hex_value c =
    if leb b'0' c && leb c b'9'
    then some (c - b'0')
    else if leb b'a' c && leb c b'f'
    then some (c - b'a' + 10)
    else if leb b'A' c && leb c b'F'
    then some (c - b'A' + 10)
    else none

unfoldable pub step_escaped : ℕ → Next
step_escaped c =
    if c == quote
    then go (quote ∷ []) plain
    else if c == backslash
    then go (backslash ∷ []) plain
    else if c == b'/'
    then go (b'/' ∷ []) plain
    else if c == b'b'
    then go (8 ∷ []) plain
    else if c == b'f'
    then go (12 ∷ []) plain
    else if c == b'n'
    then go (10 ∷ []) plain
    else if c == b'r'
    then go (13 ∷ []) plain
    else if c == b't'
    then go (9 ∷ []) plain
    else if c == b'u'
    then go [] (unit 4 0)
    else stop

abbrev pub step_digit : ℕ → ℕ → Option ℕ → Next
step_digit k acc none = stop
step_digit zero acc (some d) = stop
step_digit (suc zero) acc (some d) = go ((acc * 16 + d) ∷ []) plain
step_digit (suc (suc k)) acc (some d) = go [] (unit (suc k) (acc * 16 + d))

unfoldable pub step : Mode → ℕ → Next
step plain c =
    if c == quote
    then close
    else if c == backslash
    then go [] escaped
    else if ltb c 32
    then stop
    else go (utf16 c) plain
step escaped c = step_escaped c
step (unit k acc) c = step_digit k acc (hex_value c)

abbrev pub put : List ℕ → Option (List ℕ × Str) → Option (List ℕ × Str)
put us none = none
put us (some out) = some (us ++ out.0, out.1)

-- The code units of a string up to its closing quote, and what is behind it.
unfoldable pub read_units : Mode → Str → Option (List ℕ × Str)
read_units m [] = none
read_units m (c ∷ cs) = elim (step m c) [
  | stop ↦ none
  | close ↦ some ([], cs)
  | go us m1 ↦ put us (read_units m1 cs)
]

abbrev pub is_pair : ℕ → ℕ → Bool
is_pair u v = leb 0xd800 u && ltb u 0xdc00 && leb 0xdc00 v && ltb v 0xe000

-- The code points of UTF-16 code units. A surrogate without its other half stays as it is.
unfoldable pub combine : List ℕ → Str
combine [] = []
combine (u ∷ []) = u ∷ []
combine (u ∷ v ∷ us) = elim (is_pair u v) [
  | true ↦ (0x10000 + (u - 0xd800) * 1024 + (v - 0xdc00)) ∷ combine us
  | false ↦ u ∷ combine (v ∷ us)
]

abbrev expect : ℕ → Str → Option Str
expect c [] = none
expect c (x ∷ xs) = if x == c then some xs else none

abbrev expect_all : Str → Str → Option Str
expect_all [] s = some s
expect_all (c ∷ cs) s = expect c s >>= λ rest. expect_all cs rest

unfoldable pub read_text : Str → Option (Str × Str)
read_text s = do inside ← expect quote s; out ← read_units plain inside; some (combine out.0, out.1)

unfoldable pub read_value : Str → Option (Value × Str)
read_value [] = none
read_value (c ∷ cs) =
    if c == b't'
    then (expect_all (codes "rue") cs >>= λ rest. some (boolean true, rest))
    else if c == b'f'
    then (expect_all (codes "alse") cs >>= λ rest. some (boolean false, rest))
    else read_text (c ∷ cs) >>= λ out. some (text out.0, out.1)

unfoldable pub read_member : Str → Option ((Str × Value) × Str)
read_member s = do
  key ← read_text s
  behind ← expect b':' key.1
  value ← read_value behind
  some ((key.0, value.0), value.1)

-- The members of an object, up to a brace with nothing behind it; a round reads one of them.
unfoldable pub read_members : ℕ → Str → Option (List (Str × Value))
read_members zero s = none
read_members (suc fuel) s = read_member s >>= λ m. elim m.1 [
  | [] ↦ none
  | c ∷ cs ↦
      let rest = read_members fuel cs in
      if c == b','
      then (rest >>= λ ms. some (m.0 ∷ ms))
      else if c == b'}' && eqb cs []
      then some (m.0 ∷ [])
      else none
]

-- The members of an object that has some; each takes a character of the text at least.
unfoldable pub read_object : Str → Option (List (Str × Value))
read_object [] = none
read_object (c ∷ cs) = if c == b'{' then read_members (length cs) cs else none
