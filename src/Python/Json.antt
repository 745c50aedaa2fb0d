-- ===== src/Python/Json.antt =====
-- `json.dumps` of a flat object with `separators=(",", ":")`, as Python's `json` documents it.
pub mod Read
pub mod Laws
pub mod Objects
pub mod Ascii
use tempo_py.Prelude.{
  ℕ, ◌+◌, ◌-◌, ◌/◌, ◌%◌, ◌==◌, ◌&&◌, Bool, true, false, leb, ltb, if◌then◌else◌, List, [], ◌∷◌,
  ◌++◌,
}
use tempo_py.Python.Bytes.{Str, codes, hex_digit}

-- A value of the object: a `str` or a `bool`.
pub data Value : Type 0 where
  text : Str → Value
  boolean : Bool → Value

abbrev pub quote : ℕ
quote = b'"'

abbrev pub backslash : ℕ
backslash = b'\\'

-- `\uXXXX`
unfoldable pub escape_unit : ℕ → Str
unfolding hex_digit
escape_unit u =
    backslash
    ∷ b'u'
    ∷ hex_digit (u / 4096 % 16)
    ∷ hex_digit (u / 256 % 16)
    ∷ hex_digit (u / 16 % 16)
    ∷ hex_digit (u % 16)
    ∷ []

-- The UTF-16 code units of a code point.
unfoldable pub utf16 : ℕ → List ℕ
utf16 c =
    if ltb c 0x10000
    then c ∷ []
    else (0xd800 + (c - 0x10000) / 1024 % 1024) ∷ (0xdc00 + (c - 0x10000) % 1024) ∷ []

unfoldable pub escape_units : List ℕ → Str
escape_units [] = []
escape_units (u ∷ us) = escape_unit u ++ escape_units us

-- A character of a string, with `ensure_ascii`.
unfoldable pub escape_char : ℕ → Str
escape_char c =
    if c == quote
    then backslash ∷ quote ∷ []
    else if c == backslash
    then backslash ∷ backslash ∷ []
    else if leb b' ' c && leb c b'~'
    then c ∷ []
    else if c == 8
    then backslash ∷ b'b' ∷ []
    else if c == 9
    then backslash ∷ b't' ∷ []
    else if c == 10
    then backslash ∷ b'n' ∷ []
    else if c == 12
    then backslash ∷ b'f' ∷ []
    else if c == 13
    then backslash ∷ b'r' ∷ []
    else escape_units (utf16 c)

unfoldable pub escape_text : Str → Str
escape_text [] = []
escape_text (c ∷ cs) = escape_char c ++ escape_text cs

unfoldable pub write_text : Str → Str
write_text s = quote ∷ escape_text s ++ (quote ∷ [])

unfoldable pub write_value : Value → Str
write_value (text s) = write_text s
write_value (boolean true) = codes "true"
write_value (boolean false) = codes "false"

abbrev pub write_member : Str × Value → Str
write_member (key, value) = write_text key ++ (b':' ∷ write_value value)

-- The members, the brace that closes the object behind them.
unfoldable pub write_members : List (Str × Value) → Str
write_members [] = b'}' ∷ []
write_members (m ∷ []) = write_member m ++ (b'}' ∷ [])
write_members (m ∷ n ∷ ms) = write_member m ++ (b',' ∷ write_members (n ∷ ms))

unfoldable pub dumps : List (Str × Value) → Str
dumps members = b'{' ∷ write_members members
