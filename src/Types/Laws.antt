-- ===== src/Types/Laws.antt =====
-- What the coercions of types.py return, on every kind of argument.
use tempo_py.Prelude.{
  ◌≡◌, ◌⊎◌, inr, false, [], ◌∷◌, Option, none, some, ◌==◌, ◌<◌, if◌then◌else◌, ok, ◌>>=◌, >>=-eq-ok,
  require-eq-ok, err, value_error, length, arith,
}
use tempo_py.Python.Bytes.{Bytes, eqb}
use tempo_py.External.{External}
use tempo_py.Types.{
  Address, BytesLike, str, buffer, other, as_bytes, check_address, as_address, as_optional_address,
  as_hash32, as_selector,
}

-- An address has 20 bytes, or none at all.
abbrev pub IsAddress : Address → Type 0
IsAddress a = (length a ≡ 0) ⊎ (length a ≡ 20)

pub check_address-eq-ok :
    (b a : Bytes) → check_address b ≡ ok a → (a ≡ b) × ((length b ≡ 0) ⊎ (length b ≡ 20))
unfolding check_address
check_address-eq-ok b a h = ground arith

pub check_address_lem : (b : Bytes) → IsAddress b → check_address b ≡ ok b
unfolding check_address
check_address_lem b h = ground arith

-- Whatever `as_address` is given, an address that it returns has 20 bytes or none.
pub as_address-IsAddress :
    (ext : External) (value : BytesLike) (a : Address) → as_address ext value ≡ ok a → IsAddress a
unfolding as_address
as_address-IsAddress ext (str s) a h = ground (arith, h)
as_address-IsAddress ext (buffer b) a h = ground (arith, h)
as_address-IsAddress ext other a h = cc

-- On bytes `as_address` returns its argument where the length is 0 or 20, and raises ValueError
-- on every other length.
pub as_address_buffer :
    (ext : External) (b : Bytes)
    → (IsAddress b × (as_address ext (buffer b) ≡ ok b))
      ⊎ ((¬ IsAddress b) × (as_address ext (buffer b) ≡ err value_error))
unfolding as_address
as_address_buffer ext b = ground arith

pub as_address_lem : (ext : External) (a : Address) → IsAddress a → as_address ext (buffer a) ≡ ok a
unfolding as_address
as_address_lem ext a h = check_address_lem a h

not_empty : (b : Bytes) → eqb b [] ≡ false → 0 < length b
unfolding eqb
not_empty [] h = cc
not_empty (x ∷ b) h = omega arith

address_of_bytes :
    (ext : External) (b : Bytes) (a : Address)
    → (if eqb b [] then ok none else (as_address ext (buffer b) >>= λ x. ok (some x))) ≡ ok (some a)
    → (b ≡ a) × (length a ≡ 20)
unfolding as_address
address_of_bytes ext b a h = ground (arith, not_empty b)

-- An optional address that `as_optional_address` returns has 20 bytes: it never returns an empty one.
pub as_optional_address-length :
    (ext : External) (value : Option BytesLike) (a : Address)
    → as_optional_address ext value ≡ ok (some a)
    → length a ≡ 20
unfolding as_optional_address
as_optional_address-length ext none a h = cc
as_optional_address-length ext (some value) a h =
    let (b, _, e) = >>=-eq-ok (as_bytes ext value) _ h in (address_of_bytes ext b a e).1

-- A 20-byte address passes `as_optional_address` unchanged.
pub as_optional_address_lem :
    (ext : External) (a : Address)
    → length a ≡ 20
    → as_optional_address ext (some (buffer a)) ≡ ok (some a)
unfolding as_optional_address as_bytes eqb
as_optional_address_lem ext [] h = absurd (omega arith)
as_optional_address_lem ext (x ∷ a) h = rw (as_address_lem ext (x ∷ a) (inr h))

pub as_hash32-length :
    (ext : External) (value : BytesLike) (b : Bytes) → as_hash32 ext value ≡ ok b → length b ≡ 32
unfolding as_hash32
as_hash32-length ext (str s) b h = ground (arith, h)
as_hash32-length ext (buffer x) b h = ground (arith, h)
as_hash32-length ext other b h = cc

pub as_selector-length :
    (ext : External) (value : BytesLike) (b : Bytes) → as_selector ext value ≡ ok b → length b ≡ 4
unfolding as_selector
as_selector-length ext value b h =
    let (x, _, e) = >>=-eq-ok (as_bytes ext value) _ h in
    let four = require-eq-ok (length x == 4) value_error (ok x) e in ground (arith, four)
