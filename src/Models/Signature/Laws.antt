-- ===== src/Models/Signature/Laws.antt =====
-- What `Signature` accepts, and how its 65 bytes are read back.
use tempo_py.Prelude.{
  ℕ, ◌^◌, ◌≡◌, ◌≤◌, ◌<◌, ◌⊎◌, inl, inr, sym, ◌∙◌, ap, subst, ok-injective, ok-ne-err,
  drop-take-append, drop-append-append, [], ◌∷◌, ◌++◌, true, ok, err, value_error, length, ◌↔◌,
  length-append, take-append, lt→ltb, Bool-cases, arith,
}
use tempo_py.Prelude.Int.{ℤ, pos, pos_part}
use tempo_py.Python.Bytes.{Bytes, IsBytes}
use tempo_py.Python.Ints
use tempo_py.Python.Ints.{big_endian, byte}
use tempo_py.Python.Ints.Laws.{
  length-big_endian, from_bytes-big_endian, big_endian-from_bytes, to_bytes-eq-ok, from_bytes-lt,
}
use tempo_py.Models.Signature.{
  Signature, secp256k1_n, secp256k1_half_n, is_r, is_low_s, is_v, new, pack, from_bytes,
}

abbrev pub InV : ℤ → Type 0
InV v = (v ≡ pos 0) ⊎ ((v ≡ pos 1) ⊎ ((v ≡ pos 27) ⊎ (v ≡ pos 28)))

-- The ranges that the class promises: r in (0, n), s in (0, n/2], v one of 0, 1, 27 and 28.
pub record IsValid (sig : Signature) : Type 0 where
  pub r_pos : sig.r ≡ pos (pos_part sig.r)
  pub r_range : (0 < pos_part sig.r) × (pos_part sig.r < secp256k1_n)
  pub s_pos : sig.s ≡ pos (pos_part sig.s)
  pub s_range : (0 < pos_part sig.s) × (pos_part sig.s ≤ secp256k1_half_n)
  pub v_in : InV sig.v

module _ (r : ℤ) where
  pub is_r_lem :
      (is_r r ≡ true) ↔ ((r ≡ pos (pos_part r)) × (0 < pos_part r) × (pos_part r < secp256k1_n))
  unfolding is_r
  is_r_lem = ground arith

  pub is_low_s_lem :
      (is_low_s r ≡ true)
      ↔ ((r ≡ pos (pos_part r)) × (0 < pos_part r) × (pos_part r ≤ secp256k1_half_n))
  unfolding is_low_s
  is_low_s_lem = ground arith

  pub is_v_lem : (is_v r ≡ true) ↔ InV r
  unfolding is_v
  is_v_lem = ground arith

-- The constructor returns a signature exactly for r, s and v in range, and it raises ValueError
-- for all others.
pub new_lem :
    (r s v : ℤ)
    → let sig : Signature = record { r = r; s = s; v = v } in
      (IsValid sig × (new r s v ≡ ok sig)) ⊎ ((¬ IsValid sig) × (new r s v ≡ err value_error))
unfolding new
new_lem r s v = elim (Bool-cases (is_r r)) [
  | inr e ↦ inr (λ h. cc (e, (is_r_lem r).1 (h.r_pos, h.r_range.0, h.r_range.1)), rw e)
  | inl er ↦ elim (Bool-cases (is_low_s s)) [
    | inr e ↦ inr (λ h. cc (e, (is_low_s_lem s).1 (h.s_pos, h.s_range.0, h.s_range.1)), rw (er, e))
    | inl es ↦ elim (Bool-cases (is_v v)) [
      | inr e ↦ inr (λ h. cc (e, (is_v_lem v).1 h.v_in), rw (er, es, e))
      | inl ev ↦
          let hr = (is_r_lem r).0 er in
          let hs = (is_low_s_lem s).0 es in
          inl (
            record {
              r_pos = hr.0;
              r_range = (hr.1, hr.2);
              s_pos = hs.0;
              s_range = (hs.1, hs.2);
              v_in = (is_v_lem v).0 ev;
            },
            rw (er, es, ev),
          )
    ]
  ]
]

pub new-eq-ok : (r s v : ℤ) (sig : Signature) → new r s v ≡ ok sig → IsValid sig
new-eq-ok r s v sig h = elim (new_lem r s v) [
  | inl (valid, e) ↦ subst IsValid (ok-injective (sym e ∙ h)) valid
  | inr (_, e) ↦ absurd (ok-ne-err (sym h ∙ e))
]

-- An accepted signature has the fields that were given.
pub new_fields :
    (r s v : ℤ) (sig : Signature) → new r s v ≡ ok sig → sig ≡ record { r = r; s = s; v = v }
new_fields r s v sig h = elim (new_lem r s v) [
  | inl (_, e) ↦ ok-injective (sym h ∙ e)
  | inr (_, e) ↦ absurd (ok-ne-err (sym h ∙ e))
]

pub new-IsValid : (sig : Signature) → IsValid sig → new sig.r sig.s sig.v ≡ ok sig
new-IsValid sig h = elim (new_lem sig.r sig.s sig.v) [
  | inl (_, e) ↦ e
  | inr (no_sig, _) ↦ absurd (no_sig h)
]

-- The 65 bytes of three numbers that fit.
abbrev pub layout : ℕ → ℕ → ℕ → Bytes
layout r s v = big_endian 32 r ++ (big_endian 32 s ++ (v ∷ []))

pub pack_lem :
    (r s v : ℕ)
    → r < 256 ^ 32
    → s < 256 ^ 32
    → v < 256
    → pack (pos r) (pos s) (pos v) ≡ ok (layout r s v)
unfolding pack
pack_lem r s v hr hs hv = rw (to_bytes-eq-ok r 32 hr, to_bytes-eq-ok s 32 hs, lt→ltb v 256 hv)

pub length-layout : (r s v : ℕ) → length (layout r s v) ≡ 65
length-layout r s v = omega (
  arith,
  length-append (big_endian 32 r) (big_endian 32 s ++ (v ∷ [])),
  length-append (big_endian 32 s) (v ∷ []),
  length-big_endian 32 r,
  length-big_endian 32 s,
)

pub from_bytes-append :
    (xs ys : Bytes) (v : ℕ)
    → length xs ≡ 32
    → length ys ≡ 32
    → from_bytes (xs ++ (ys ++ (v ∷ [])))
      ≡ new (pos (Ints.from_bytes xs)) (pos (Ints.from_bytes ys)) (pos v)
unfolding from_bytes
from_bytes-append xs ys v hx hy =
    let n : length (xs ++ (ys ++ (v ∷ []))) ≡ 65 =
      omega (arith, length-append xs (ys ++ (v ∷ [])), length-append ys (v ∷ [])) in
    rw (
      take-append 32 xs (ys ++ (v ∷ [])) hx,
      drop-take-append 32 32 xs ys (v ∷ []) hx hy,
      drop-append-append 32 32 xs ys (v ∷ []) hx hy,
      n,
    )

pub from_bytes-layout :
    (r s v : ℕ)
    → r < 256 ^ 32
    → s < 256 ^ 32
    → from_bytes (layout r s v) ≡ new (pos r) (pos s) (pos v)
from_bytes-layout r s v hr hs =
    from_bytes-append (big_endian 32 r) (big_endian 32 s) v (length-big_endian 32 r)
      (length-big_endian 32 s)
    ∙ rw (from_bytes-big_endian 32 r hr, from_bytes-big_endian 32 s hs)

-- What `to_bytes` writes for numbers that were read from 65 bytes.
pub pack-from_bytes :
    (xs ys : Bytes) (v : ℕ)
    → IsBytes xs
    → IsBytes ys
    → v < 256
    → length xs ≡ 32
    → length ys ≡ 32
    → pack (pos (Ints.from_bytes xs)) (pos (Ints.from_bytes ys)) (pos v)
      ≡ ok (xs ++ (ys ++ (v ∷ [])))
pack-from_bytes xs ys v bx by bv hx hy =
    let rx : big_endian 32 (Ints.from_bytes xs) ≡ xs =
      ap (λ (k : ℕ). big_endian k (Ints.from_bytes xs)) (sym hx) ∙ big_endian-from_bytes xs bx in
    let ry : big_endian 32 (Ints.from_bytes ys) ≡ ys =
      ap (λ (k : ℕ). big_endian k (Ints.from_bytes ys)) (sym hy) ∙ big_endian-from_bytes ys by in
    let lx : Ints.from_bytes xs < 256 ^ 32 =
      subst (λ (k : ℕ). Ints.from_bytes xs < 256 ^ k) hx (from_bytes-lt xs bx) in
    let ly : Ints.from_bytes ys < 256 ^ 32 =
      subst (λ (k : ℕ). Ints.from_bytes ys < 256 ^ k) hy (from_bytes-lt ys by) in
    pack_lem (Ints.from_bytes xs) (Ints.from_bytes ys) v lx ly bv ∙ rw (rx, ry)
