-- ===== src/Keychain/Trailing.antt =====
-- The trailing form of `KeyAuthorization.to_rlp`: every optional field is read back at its place,
-- and the list does not end in a placeholder.
use tempo_py.Prelude.{
  ℕ, ◌≤◌, zero, suc, length-take, ◌==◌, ◌≡◌, refl, sym, ap, Bool, true, false, if◌then◌else◌, List,
  [], ◌∷◌, map, take, drop, length, Option, none, some, Bool-cases, ==_iff, inl, inr, All, arith,
}
use tempo_py.Prelude.Int.{ℤ, pos, eqb_ℤ}
use tempo_py.Python.Bytes.{Bytes, eqb}
use tempo_py.External.{Rlp, bytes, int, list, seq}
use tempo_py.Types.{Address}
use tempo_py.Keychain.Scopes.{token_limit_to_rlp, call_scope_to_rlp}
use tempo_py.Keychain.Authorization.{
  KeyAuthorization, is_set, present_length, placeholder, optionals, trailing, to_rlp,
}
use mathlib.Core.Option

-- How a reader of the trailing form takes an element: the empty string stands for no value.
abbrev pub present : Rlp → Option Rlp
present (bytes []) = none
present (bytes (x ∷ b)) = some (bytes (x ∷ b))
present (int n) = some (int n)
present (list xs) = some (list xs)

-- The value at place `i`, none where the list has ended.
abbrev pub read : ℕ → List Rlp → Option Rlp
read i [] = none
read zero (x ∷ xs) = present x
read (suc i) (x ∷ xs) = read i xs

-- The i-th of the optional values.
abbrev pub value_at : ℕ → List (Option Rlp) → Option Rlp
value_at i [] = none
value_at zero (o ∷ os) = o
value_at (suc i) (o ∷ os) = value_at i os

-- A list whose last element is a value.
abbrev pub EndsInValue : List Rlp → Type 0
EndsInValue [] = Unit
EndsInValue (x ∷ []) = present x ≡ some x
EndsInValue (x ∷ (y ∷ xs)) = EndsInValue (y ∷ xs)

-- A value that is there is not the placeholder.
abbrev pub IsValue : Option Rlp → Type 0
IsValue o = present (placeholder o) ≡ o

nothing_left : (os : List (Option Rlp)) (i : ℕ) → present_length os ≡ 0 → value_at i os ≡ none
unfolding present_length
nothing_left [] i h = refl
nothing_left (none ∷ os) zero h = refl
nothing_left (none ∷ os) (suc i) h = nothing_left os i (ground (arith, h))
nothing_left (some v ∷ os) i h = absurd (ground (arith, h))

nothing_set :
    (os : List (Option Rlp))
    → (present_length (none ∷ os) == 0) ≡ false
    → ¬ ((present_length os == 0) ≡ true)
unfolding present_length
nothing_set os h e = ground (arith, h, e)

-- The two forms of `trailing`: nothing behind the head, or more.
trailing-last :
    (o : Option Rlp) (os : List (Option Rlp))
    → (present_length os == 0) ≡ true
    → trailing (o ∷ os) ≡ (if is_set o then placeholder o ∷ [] else [])
unfolding trailing present_length
trailing-last none os h = rw h
trailing-last (some v) os h = rw h

trailing-more :
    (o : Option Rlp) (os : List (Option Rlp))
    → (present_length os == 0) ≡ false
    → trailing (o ∷ os) ≡ placeholder o ∷ trailing os
unfolding trailing present_length
trailing-more o os h = rw h

read_last :
    (o : Option Rlp) (os : List (Option Rlp)) (i : ℕ)
    → IsValue o
    → present_length os ≡ 0
    → read i (if is_set o then placeholder o ∷ [] else []) ≡ value_at i (o ∷ os)
read_last none os zero v h = refl
read_last none os (suc i) v h = sym (nothing_left os i h)
read_last (some x) os zero v h = v
read_last (some x) os (suc i) v h = sym (nothing_left os i h)

pub read-trailing :
    (os : List (Option Rlp)) (i : ℕ) → All IsValue os → read i (trailing os) ≡ value_at i os
read-trailing [] i h = unfold trailing present_length in refl
read-trailing (o ∷ os) zero h = elim (Bool-cases (present_length os == 0)) [
  | inl e ↦ rw (trailing-last o os e) (read_last o os zero h.0 ((==_iff _ 0).0 e))
  | inr e ↦ rw (trailing-more o os e) h.0
]
read-trailing (o ∷ os) (suc i) h = elim (Bool-cases (present_length os == 0)) [
  | inl e ↦ rw (trailing-last o os e) (read_last o os (suc i) h.0 ((==_iff _ 0).0 e))
  | inr e ↦ rw (trailing-more o os e) (read-trailing os i h.1)
]

-- Where a value is left, the list has an element.
has_element :
    (os : List (Option Rlp))
    → (present_length os == 0) ≡ false
    → (x : Rlp) × (xs : List Rlp) × (trailing os ≡ x ∷ xs)
has_element [] h = absurd (unfold present_length in ground (arith, h))
has_element (o ∷ os) h = elim (Bool-cases (present_length os == 0)) [
  | inr e ↦ (placeholder o, trailing os, trailing-more o os e)
  | inl e ↦ only o h e
]
  where
    only :
        (o : Option Rlp)
        → (present_length (o ∷ os) == 0) ≡ false
        → (present_length os == 0) ≡ true
        → (x : Rlp) × (xs : List Rlp) × (trailing (o ∷ os) ≡ x ∷ xs)
    only none h e = absurd (nothing_set os h e)
    only (some v) h e = (v, [], trailing-last (some v) os e)

ends_cons :
    (x : Rlp) (xs : List Rlp)
    → (y : Rlp) × (ys : List Rlp) × (xs ≡ y ∷ ys)
    → EndsInValue xs
    → EndsInValue (x ∷ xs)
ends_cons x [] (y, ys, e) h = cc (e)
ends_cons x (z ∷ xs) p h = h

pub trailing-EndsInValue : (os : List (Option Rlp)) → All IsValue os → EndsInValue (trailing os)
trailing-EndsInValue [] h = unfold trailing present_length in tt
trailing-EndsInValue (o ∷ os) h = elim (Bool-cases (present_length os == 0)) [
  | inl e ↦ rw (trailing-last o os e) (ends_last o h.0)
  | inr e ↦
      rw (trailing-more o os e)
        (ends_cons (placeholder o) (trailing os) (has_element os e) (trailing-EndsInValue os h.1))
]
  where
    ends_last :
        (o : Option Rlp) → IsValue o → EndsInValue (if is_set o then placeholder o ∷ [] else [])
    ends_last none v = tt
    ends_last (some x) v = v

not_blank : (b : Bytes) → eqb b [] ≡ false → present (bytes b) ≡ some (bytes b)
unfolding eqb
not_blank [] h = cc
not_blank (x ∷ b) h = refl

abbrev pub AccountSet : Option Address → Type 0
AccountSet none = Unit
AccountSet (some a) = length a ≡ 20

account-IsValue : (o : Option Address) → AccountSet o → IsValue (Option.map bytes o)
account-IsValue none h = refl
account-IsValue (some []) h = absurd (omega arith)
account-IsValue (some (x ∷ a)) h = refl

witness-IsValue : (w : Bytes) → IsValue (if eqb w [] then none else some (bytes w))
witness-IsValue w = elim (Bool-cases (eqb w [])) [ inl e ↦ rw e | inr e ↦ rw e (not_blank w e) ]

list-IsValue {ℓ} :
    {A : Type ℓ} (f : A → Rlp) (o : Option (List A)) → IsValue (Option.map (λ xs. seq (map f xs)) o)
list-IsValue f none = refl
list-IsValue f (some xs) = refl

flag-IsValue : (b : Bool) (n : ℤ) → IsValue (if b then none else some (int n))
flag-IsValue true n = refl
flag-IsValue false n = refl

admin-IsValue : (b : Bool) → IsValue (if b then some (int (pos 1)) else none)
admin-IsValue true = refl
admin-IsValue false = refl

optionals-IsValue : (a : KeyAuthorization) → AccountSet a.account → All IsValue (optionals a)
unfolding optionals
optionals-IsValue a h = (
  flag-IsValue (eqb_ℤ a.expiry (pos 0)) a.expiry,
  (
    list-IsValue token_limit_to_rlp a.limits,
    (
      list-IsValue call_scope_to_rlp a.allowed_calls,
      (witness-IsValue a.witness, (admin-IsValue a.is_admin, (account-IsValue a.account h, tt))),
    ),
  ),
)

-- What a reader finds at each place of the list behind the first three elements.
pub record Elements (a : KeyAuthorization) (xs : List Rlp) : Type 0 where
  pub expiry : read 0 xs ≡ (if eqb_ℤ a.expiry (pos 0) then none else some (int a.expiry))
  pub limits : read 1 xs ≡ Option.map (λ ts. seq (map token_limit_to_rlp ts)) a.limits
  pub allowed_calls : read 2 xs ≡ Option.map (λ cs. seq (map call_scope_to_rlp cs)) a.allowed_calls
  pub witness : read 3 xs ≡ (if eqb a.witness [] then none else some (bytes a.witness))
  pub is_admin : read 4 xs ≡ (if a.is_admin then some (int (pos 1)) else none)
  pub account : read 5 xs ≡ Option.map bytes a.account
  pub nothing_more : length xs ≤ 6
  pub last : EndsInValue xs

length-map : {A B : Type 0} (f : A → B) (xs : List A) → length (map f xs) ≡ length xs
length-map f [] = refl
length-map f (x ∷ xs) = ap suc (length-map f xs)

length-trailing : (os : List (Option Rlp)) → length (trailing os) ≤ length os
unfolding trailing
length-trailing os = omega (arith, length-map placeholder (take n os), length-take n os)
  where
    n : ℕ
    n = present_length os

-- For an authorization whose account, where set, has 20 bytes: its list begins with the chain, the
-- key's type and the key. Behind them a reader finds the expiry (absent where it is 0), the limits,
-- the allowed calls, the witness (absent where it is empty), the admin flag (1, or absent) and the
-- account, in this order, each at its own place and an absent one as absent; there are at most six
-- elements, and the last one is not a placeholder.
pub to_rlp_reads :
    (a : KeyAuthorization)
    → AccountSet a.account
    → (take 3 (to_rlp a) ≡ int a.chain_id ∷ int a.key_type ∷ bytes a.key_id ∷ [])
      × Elements a (drop 3 (to_rlp a))
unfolding to_rlp optionals
to_rlp_reads a h = (
  refl,
  record {
    expiry = read-trailing (optionals a) 0 (optionals-IsValue a h);
    limits = read-trailing (optionals a) 1 (optionals-IsValue a h);
    allowed_calls = read-trailing (optionals a) 2 (optionals-IsValue a h);
    witness = read-trailing (optionals a) 3 (optionals-IsValue a h);
    is_admin = read-trailing (optionals a) 4 (optionals-IsValue a h);
    account = read-trailing (optionals a) 5 (optionals-IsValue a h);
    nothing_more = length-trailing (optionals a);
    last = trailing-EndsInValue (optionals a) (optionals-IsValue a h);
  },
)
