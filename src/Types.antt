-- ===== src/Types.antt =====
-- tempo/types.py: the coercions of the SDK's arguments to bytes, addresses, hashes and selectors.
pub mod Laws
use tempo_py.Prelude.{
  ℕ, ◌==◌, ◌||◌, Bool, true, false, if◌then◌else◌, List, [], ◌∷◌, Option, none, some, Result, ok,
  err, value_error, type_error, ◌>>=◌, ◌>>◌, require, length, replicate,
}
use tempo_py.Python.Bytes.{Bytes, Str, codes, eqb}
use tempo_py.External.{External}

-- `Address = NewType("Address", bytes)`
abbrev pub Address : Type 0
Address = Bytes

-- A `str`, a value that `bytes` copies (bytes, bytearray, memoryview), or any other object.
pub data BytesLike : Type 0 where
  str : Str → BytesLike
  buffer : Bytes → BytesLike
  other : BytesLike

-- `value in ("", "0x")`
unfoldable pub is_blank : Str → Bool
is_blank s = eqb s (codes "") || eqb s (codes "0x")

unfoldable pub as_bytes : External → BytesLike → Result Bytes
as_bytes ext (str s) = if is_blank s then ok [] else ext.to_bytes_hex s
as_bytes ext (buffer b) = ok b
as_bytes ext other = err type_error

-- `if len(b) not in (0, 20): raise ValueError`
unfoldable pub check_address : Bytes → Result Address
check_address b = require (length b == 0 || length b == 20) value_error >> ok b

unfoldable pub as_address : External → BytesLike → Result Address
unfolding check_address
as_address ext (str s) = if is_blank s then ok [] else ext.to_bytes_hex s >>= check_address
as_address ext (buffer b) = check_address b
as_address ext other = err type_error

unfoldable pub as_optional_address : External → Option BytesLike → Result (Option Address)
as_optional_address ext none = ok none
as_optional_address ext (some value) = do
  b ← as_bytes ext value
  if eqb b [] then ok none else (as_address ext (buffer b) >>= λ a. ok (some a))

unfoldable pub check_hash32 : Bytes → Result Bytes
check_hash32 b = require (length b == 32) value_error >> ok b

unfoldable pub as_hash32 : External → BytesLike → Result Bytes
unfolding check_hash32
as_hash32 ext (str s) = ext.to_bytes_hex s >>= check_hash32
as_hash32 ext (buffer b) = check_hash32 b
as_hash32 ext other = err type_error

unfoldable pub as_selector : External → BytesLike → Result Bytes
as_selector ext value = do b ← as_bytes ext value; require (length b == 4) value_error; ok b

unfoldable pub validate_nonempty_address : Address → Result (Unit {0})
validate_nonempty_address value = require (length value == 20) value_error
