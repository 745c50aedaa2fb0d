-- ===== src/Devnet/Cluster/Directories/Order.antt =====
-- What `sorted` does in `node_dirs` of tempo/devnet/cluster.py: the same texts, in their order.
use tempo_py.Prelude.{
  ℕ, ◌≡◌, ◌<◌, ◌⊎◌, inl, inr, ◌==◌, Bool, true, false, ◌&&◌, ◌||◌, ltb, List, [], ◌∷◌, Bool-cases,
  arith,
}
use tempo_py.Python.Bytes.{Str}
use tempo_py.Devnet.Cluster.Directories.{leb_str, place, sorted}
use mathlib.Core.List.{Perm}
use mathlib.Core.List.Perm

-- The first text stands before the second one in a dictionary, or is the same.
abbrev pub Precedes : Str → Str → Type 0
Precedes [] b = Unit
Precedes (x ∷ xs) [] = true ≡ false
Precedes (x ∷ xs) (y ∷ ys) = (x < y) ⊎ ((x ≡ y) × Precedes xs ys)

-- Each text precedes the next one.
abbrev pub IsAscending : List Str → Type 0
IsAscending [] = Unit
IsAscending (a ∷ []) = Unit
IsAscending (a ∷ (b ∷ rest)) = Precedes a b × IsAscending (b ∷ rest)

head-cases :
    (x y : ℕ) (rest : Bool)
    → ltb x y || ((x == y) && rest) ≡ true
    → (x < y) ⊎ ((x ≡ y) × (rest ≡ true))
head-cases x y rest h = ground arith

head-reversed :
    (x y : ℕ) (rest : Bool)
    → ltb x y || ((x == y) && rest) ≡ false
    → (y < x) ⊎ ((y ≡ x) × (rest ≡ false))
head-reversed x y rest h = ground arith

leb_str-Precedes : (a b : Str) → leb_str a b ≡ true → Precedes a b
unfolding leb_str
leb_str-Precedes [] b h = tt
leb_str-Precedes (x ∷ xs) [] h = cc
leb_str-Precedes (x ∷ xs) (y ∷ ys) h = elim (head-cases x y (leb_str xs ys) h) [
  | inl lt ↦ inl lt
  | inr same ↦ inr (same.0, leb_str-Precedes xs ys same.1)
]

not_leb_str-Precedes : (a b : Str) → leb_str a b ≡ false → Precedes b a
unfolding leb_str
not_leb_str-Precedes [] b h = cc
not_leb_str-Precedes (x ∷ xs) [] h = tt
not_leb_str-Precedes (x ∷ xs) (y ∷ ys) h = elim (head-reversed x y (leb_str xs ys) h) [
  | inl lt ↦ inl lt
  | inr same ↦ inr (same.0, not_leb_str-Precedes xs ys same.1)
]

place-IsAscending_after :
    (y x : Str) (ys : List Str) → Precedes y x → IsAscending (y ∷ ys) → IsAscending (y ∷ place x ys)
unfolding place
place-IsAscending_after y x [] h k = (h, tt)
place-IsAscending_after y x (z ∷ zs) h k = elim (Bool-cases (leb_str x z)) [
  | inl e ↦ rw e (h, (leb_str-Precedes x z e, k.1))
  | inr e ↦ rw e (k.0, place-IsAscending_after z x zs (not_leb_str-Precedes x z e) k.1)
]

place-IsAscending : (x : Str) (ys : List Str) → IsAscending ys → IsAscending (place x ys)
unfolding place
place-IsAscending x [] k = tt
place-IsAscending x (z ∷ zs) k = elim (Bool-cases (leb_str x z)) [
  | inl e ↦ rw e (leb_str-Precedes x z e, k)
  | inr e ↦ rw e (place-IsAscending_after z x zs (not_leb_str-Precedes x z e) k)
]

pub sorted-IsAscending : (xs : List Str) → IsAscending (sorted xs)
unfolding sorted
sorted-IsAscending [] = tt
sorted-IsAscending (x ∷ xs) = place-IsAscending x (sorted xs) (sorted-IsAscending xs)

place-Perm : (x : Str) (ys : List Str) → Perm (place x ys) (x ∷ ys)
unfolding place
place-Perm x [] = Perm.refl (x ∷ [])
place-Perm x (z ∷ zs) = elim (Bool-cases (leb_str x z)) [
  | inl e ↦ rw e (Perm.refl (x ∷ z ∷ zs))
  | inr e ↦ rw e (Perm.trans (Perm.cons z (place-Perm x zs)) (Perm.swap x z zs))
]

pub sorted-Perm : (xs : List Str) → Perm (sorted xs) xs
unfolding sorted
sorted-Perm [] = Perm.refl []
sorted-Perm (x ∷ xs) = Perm.trans (place-Perm x (sorted xs)) (Perm.cons x (sorted-Perm xs))
