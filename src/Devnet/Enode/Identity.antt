-- ===== src/Devnet/Enode/Identity.antt =====
-- The identity that is read from the output of `tempo p2p enode`.
use tempo_py.Prelude.{ℕ, ◌≡◌, ◌≢◌, ◌==◌, refl, false, [], ◌∷◌, ◌++◌, some, All, arith}
use tempo_py.Python.Bytes.{Str, codes}
use tempo_py.Python.Base64.{prepend_unless}
use tempo_py.Devnet.Enode.{is_space, strip_left, strip_right, starts_with, before_at, identity_of}

prepend-kept : (x : ℕ) (ys : Str) → prepend_unless false x ys ≡ x ∷ ys
prepend-kept x [] = refl
prepend-kept x (y ∷ ys) = refl

-- Nothing in front of a character that is no whitespace is removed at the end.
strip_right-append :
    (xs : Str) (c : ℕ) (rest : Str)
    → is_space c ≡ false
    → strip_right (xs ++ (c ∷ rest)) ≡ xs ++ (c ∷ strip_right rest)
unfolding strip_right
strip_right-append [] c rest h = rw (h, prepend-kept c (strip_right rest)) refl
strip_right-append (x ∷ []) c rest h = rw (strip_right-append [] c rest h) refl
strip_right-append (x ∷ y ∷ xs) c rest h = rw (strip_right-append (y ∷ xs) c rest h) refl

before_at-append :
    (xs rest : Str) → All (λ c. c ≢ b'@') xs → before_at (xs ++ (b'@' ∷ rest)) ≡ some xs
unfolding before_at
before_at-append [] rest h = refl
before_at-append (x ∷ xs) rest h =
    let no : (x == b'@') ≡ false = ground (arith, h.0) in rw (no, before_at-append xs rest h.1) refl

-- An enode URL's identity is read, whatever comes behind the "@".
pub identity_of-url :
    (id rest : Str)
    → All (λ c. c ≢ b'@') id
    → identity_of (codes "enode://" ++ (id ++ (b'@' ∷ rest))) ≡ some id
unfolding identity_of strip_left starts_with is_space
identity_of-url id rest h =
    let kept = strip_right-append (codes "enode://" ++ id) b'@' rest (unfold is_space in refl) in
    rw kept (before_at-append id (strip_right rest) h)
