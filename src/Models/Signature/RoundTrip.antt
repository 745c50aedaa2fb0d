-- ===== src/Models/Signature/RoundTrip.antt =====
-- A signature and its 65 bytes, in both directions, and the canonical form with v in {27, 28}.
use tempo_py.Prelude.{
  ℕ, ◌==◌, ◌≡◌, ◌≤◌, ◌<◌, refl, sym, ◌∙◌, ap, [], ◌∷◌, ◌++◌, ok, value_error, ==_iff, require-eq-ok,
  length, take, drop, take-append-drop, All-take, All-drop, length-take, length-drop, All-append,
  subst, ok-injective, arith,
}
use tempo_py.Prelude.Int.{ℤ, pos, pos_part, ◌+ℤ◌}
use tempo_py.Python.Bytes.{Bytes, IsBytes}
use tempo_py.Python.Ints.{big_endian}
use tempo_py.Python.Ints.Laws.{big_endian-IsBytes}
use tempo_py.Models.Signature.{
  Signature, new, y_parity, to_bytes, to_canonical_bytes, from_bytes, first,
}
use tempo_py.Models.Signature.Laws.{
  InV, IsValid, new_fields, from_bytes-append, pack-from_bytes, new-IsValid, new-eq-ok, layout,
  pack_lem, length-layout, from_bytes-layout,
}

InV-byte : (v : ℤ) → InV v → (v ≡ pos (pos_part v)) × (pos_part v < 256)
InV-byte v h = ground arith

-- The bytes that a valid signature is written as, in plain arithmetic.
to_bytes-layout :
    (sig : Signature)
    → IsValid sig
    → (to_bytes sig ≡ ok (layout (pos_part sig.r) (pos_part sig.s) (pos_part sig.v)))
      × (new (pos (pos_part sig.r)) (pos (pos_part sig.s)) (pos (pos_part sig.v)) ≡ ok sig)
unfolding to_bytes
to_bytes-layout sig h =
    let hv = InV-byte sig.v h.v_in in
    let e =
      pack_lem (pos_part sig.r) (pos_part sig.s) (pos_part sig.v) (omega (arith, h.r_range.1))
        (omega (arith, h.s_range.1)) hv.1 in
    (cc (h.r_pos, h.s_pos, hv.0, e), cc (h.r_pos, h.s_pos, hv.0, new-IsValid sig h))

-- A valid signature is written as 65 bytes, without an exception, and `from_bytes` reads the same
-- signature back.
pub from_bytes-to_bytes :
    (sig : Signature)
    → IsValid sig
    → (b : Bytes) × (to_bytes sig ≡ ok b) × (length b ≡ 65) × (from_bytes b ≡ ok sig)
from_bytes-to_bytes sig h =
    let r = pos_part sig.r in
    let s = pos_part sig.s in
    let v = pos_part sig.v in
    let e = to_bytes-layout sig h in
    (
      layout r s v,
      e.0,
      length-layout r s v,
      from_bytes-layout r s v (omega (arith, h.r_range.1)) (omega (arith, h.s_range.1)) ∙ e.1,
    )

-- A list of one element.
first_lem : (zs : Bytes) → length zs ≡ 1 → zs ≡ first zs ∷ []
first_lem [] h = absurd (omega arith)
first_lem (z ∷ []) h = refl
first_lem (z ∷ (y ∷ zs)) h = absurd (omega arith)

first-lt : (zs : Bytes) → IsBytes zs → first zs < 256
first-lt [] h = omega arith
first-lt (z ∷ zs) h = h.0

-- The three parts of 65 bytes, as `from_bytes` reads them and as `to_bytes` writes them.
module _ (xs ys : Bytes) (z : ℕ) (sig : Signature) where
  to_bytes_of_parts :
      IsBytes xs
      → IsBytes ys
      → z < 256
      → length xs ≡ 32
      → length ys ≡ 32
      → from_bytes (xs ++ (ys ++ (z ∷ []))) ≡ ok sig
      → IsValid sig × (to_bytes sig ≡ ok (xs ++ (ys ++ (z ∷ []))))
  unfolding to_bytes
  to_bytes_of_parts bx by bz hx hy h =
      let e = sym (from_bytes-append xs ys z hx hy) ∙ h in
      let f = new_fields _ _ _ sig e in
      (new-eq-ok _ _ _ sig e, ap to_bytes f ∙ pack-from_bytes xs ys z bx by bz hx hy)

length-eq_65 : (b : Bytes) (sig : Signature) → from_bytes b ≡ ok sig → length b ≡ 65
unfolding from_bytes
length-eq_65 b sig h = (==_iff (length b) 65).0 (require-eq-ok (length b == 65) value_error _ h).0

three_parts :
    (b : Bytes)
    → length b ≡ 65
    → b ≡ take 32 b ++ (take 32 (drop 32 b) ++ (first (drop 32 (drop 32 b)) ∷ []))
three_parts b n =
    let one =
      first_lem (drop 32 (drop 32 b))
        (omega (arith, length-drop 32 b, length-drop 32 (drop 32 b))) in
    sym (take-append-drop 32 b)
    ∙ ap (λ (t : Bytes). take 32 b ++ t) (sym (take-append-drop 32 (drop 32 b)))
    ∙ ap (λ (t : Bytes). take 32 b ++ (take 32 (drop 32 b) ++ t)) one

-- Bytes that `from_bytes` accepts are 65, and the signature that it returns is valid and is
-- written as the same bytes.
pub to_bytes-from_bytes :
    (b : Bytes) (sig : Signature)
    → IsBytes b
    → from_bytes b ≡ ok sig
    → (length b ≡ 65) × IsValid sig × (to_bytes sig ≡ ok b)
to_bytes-from_bytes b sig hb h =
    let xs = take 32 b in
    let ys = take 32 (drop 32 b) in
    let zs = drop 32 (drop 32 b) in
    let n = length-eq_65 b sig h in
    let whole : b ≡ xs ++ (ys ++ (first zs ∷ [])) = three_parts b n in
    let parts =
      to_bytes_of_parts xs ys (first zs) sig (All-take _ 32 b hb)
        (All-take _ 32 (drop 32 b) (All-drop _ 32 b hb))
        (first-lt zs (All-drop _ 32 (drop 32 b) (All-drop _ 32 b hb)))
        (omega (arith, length-take 32 b))
        (omega (arith, length-take 32 (drop 32 b), length-drop 32 b))
        (ap from_bytes (sym whole) ∙ h) in
    (n, parts.0, parts.1 ∙ ap ok (sym whole))

pub y_parity_lem :
    (sig : Signature)
    → IsValid sig
    → (y_parity sig ≡ pos (pos_part (y_parity sig))) × (pos_part (y_parity sig) ≤ 1)
unfolding y_parity
y_parity_lem sig h = ground arith

-- The same signature with v in {27, 28}.
abbrev pub canonical : Signature → Signature
canonical sig = record sig { v = pos 27 +ℤ y_parity sig }

pub canonical-IsValid : (sig : Signature) → IsValid sig → IsValid (canonical sig)
unfolding ◌+ℤ◌
canonical-IsValid sig h = record {
  r_pos = h.r_pos;
  r_range = h.r_range;
  s_pos = h.s_pos;
  s_range = h.s_range;
  v_in = ground (arith, y_parity_lem sig h);
}

y_parity-canonical : (sig : Signature) → IsValid sig → y_parity (canonical sig) ≡ y_parity sig
unfolding y_parity ◌+ℤ◌
y_parity-canonical sig h = ground (arith, h.v_in)

pub from_bytes-to_canonical_bytes :
    (sig : Signature)
    → IsValid sig
    → (b : Bytes) × (to_canonical_bytes sig ≡ ok b)
      × (length b ≡ 65)
      × (from_bytes b ≡ ok (canonical sig))
      × (y_parity (canonical sig) ≡ y_parity sig)
unfolding to_canonical_bytes to_bytes
from_bytes-to_canonical_bytes sig h =
    let p = from_bytes-to_bytes (canonical sig) (canonical-IsValid sig h) in
    (p.0, p.1, p.2, p.3, y_parity-canonical sig h)

layout-IsBytes : (r s v : ℕ) → v < 256 → IsBytes (layout r s v)
layout-IsBytes r s v h =
    All-append _ (big_endian 32 r) _ (big_endian-IsBytes 32 r)
      (All-append _ (big_endian 32 s) _ (big_endian-IsBytes 32 s) (h, tt))

pub to_canonical_bytes-IsBytes :
    (sig : Signature) (b : Bytes) → IsValid sig → to_canonical_bytes sig ≡ ok b → IsBytes b
unfolding to_canonical_bytes to_bytes
to_canonical_bytes-IsBytes sig b h e =
    let valid = canonical-IsValid sig h in
    let hv = InV-byte (canonical sig).v valid.v_in in
    subst IsBytes (ok-injective (sym (to_bytes-layout (canonical sig) valid).0 ∙ e))
      (layout-IsBytes _ _ _ hv.1)
