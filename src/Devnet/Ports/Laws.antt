-- ===== src/Devnet/Ports/Laws.antt =====
-- What the search for ports promises.
use tempo_py.Prelude.{
  ℕ, zero, suc, ◌+◌, ◌*◌, ◌≡◌, ◌≤◌, ◌<◌, refl, sym, ap, length, ◌∙◌, Bool, true, false, ◌&&◌, List,
  [], ◌∷◌, ◌++◌, map, ltb, if◌then◌else◌, max, Result, ok, err, value_error, runtime_error, ◌>>=◌,
  >>=-eq-ok, ok-injective, All, Bool-cases, inl, inr, ◌⊎◌, subst, arith,
}
use tempo_py.Devnet.Ports.{
  Sockets, range, blocks, needed, maximum, all_of, search_from, find_free_base_ports,
}

-- Port `p` passed the tests of attempt `i`.
abbrev pub IsFree : Sockets → ℕ → ℕ → Type 0
IsFree sockets i p = (p < 65500) × (sockets.can_bind i p ≡ true)

maximum-bounds : (xs : List ℕ) (m : ℕ) → maximum xs ≡ ok m → All (λ x. x ≤ m) xs
unfolding maximum
maximum-bounds [] m h = cc
maximum-bounds (x ∷ []) m h = (omega (arith, ok-injective h), tt)
maximum-bounds (x ∷ y ∷ xs) m h =
    let (m', found, h') = >>=-eq-ok (maximum (y ∷ xs)) _ h in
    let e = ok-injective h' in
    (omega (arith, e), weaken (y ∷ xs) (omega (arith, e)) (maximum-bounds (y ∷ xs) m' found))
  where
    weaken : {a b : ℕ} (zs : List ℕ) → a ≤ b → All (λ z. z ≤ a) zs → All (λ z. z ≤ b) zs
    weaken [] ab h = tt
    weaken (z ∷ zs) ab h = (omega (arith, h.0), weaken zs ab h.1)

first_or_later : (s k : ℕ) → s ≤ k → (k ≡ s) ⊎ (suc s ≤ k)
first_or_later s k h = ground arith

All-split : (P : ℕ → Type 0) (xs ys : List ℕ) → All P (xs ++ ys) → All P xs × All P ys
All-split P [] ys h = (tt, h)
All-split P (x ∷ xs) ys h = let (a, b) = All-split P xs ys h.1 in ((h.0, a), b)

and_true : (a b : Bool) → a && b ≡ true → (a ≡ true) × (b ≡ true)
and_true true b h = (refl, h)
and_true false b h = cc

all_of-IsFree :
    (sockets : Sockets) (i m : ℕ) (xs : List ℕ)
    → m < 65500
    → All (λ x. x ≤ m) xs
    → all_of (sockets.can_bind i) xs ≡ true
    → All (IsFree sockets i) xs
unfolding all_of
all_of-IsFree sockets i m [] lt le h = tt
all_of-IsFree sockets i m (x ∷ xs) lt le h =
    let (e, h') = and_true (sockets.can_bind i x) _ h in
    ((omega (arith, le.0), e), all_of-IsFree sockets i m xs lt le.1 h')

module _ {ℓ} {A : Type ℓ} where
  if_true : (b : Bool) (x y : A) {z : A} → b ≡ true → (if b then x else y) ≡ z → x ≡ z
  if_true true x y e h = h
  if_true false x y e h = cc

  if_false : (b : Bool) (x y : A) {z : A} → b ≡ false → (if b then x else y) ≡ z → y ≡ z
  if_false true x y e h = cc
  if_false false x y e h = h

-- The blocks that a search returns are those of one of its attempts, and they passed its tests.
search_from-eq-ok :
    (sockets : Sockets) (count stride i left : ℕ) (bases : List ℕ)
    → search_from sockets count stride i left ≡ ok bases
    → (j : ℕ) × (j < i + left)
      × (bases ≡ blocks (sockets.ephemeral_port j) stride count)
      × All (IsFree sockets j) (needed bases)
unfolding search_from
search_from-eq-ok sockets count stride i zero bases h = cc
search_from-eq-ok sockets count stride i (suc left) bases h =
    let here = blocks (sockets.ephemeral_port i) stride count in
    let (m, found, h') = >>=-eq-ok (maximum (needed here)) _ h in
    elim (Bool-cases (ltb m 65500 && all_of (sockets.can_bind i) (needed here))) [
      | inl e ↦
          let (lt, free) = and_true (ltb m 65500) _ e in
          subst
            (λ bs.
              (j : ℕ) × (j < i + suc left)
              × (bs ≡ blocks (sockets.ephemeral_port j) stride count)
              × All (IsFree sockets j) (needed bs))
            (ok-injective (if_true _ _ _ e h'))
            (
              i,
              omega arith,
              refl,
              all_of-IsFree sockets i m (needed here) (ground (arith, lt))
                  (maximum-bounds (needed here) m found) free,
            )
      | inr e ↦
          let (j, lt, same, free) =
            search_from-eq-ok sockets count stride (suc i) left bases (if_false _ _ _ e h') in
          (j, omega (arith, lt), same, free)
    ]

-- The six ports of a block, each of which passed the tests of attempt `i`.
abbrev pub BlockIsFree : Sockets → ℕ → ℕ → Type 0
BlockIsFree sockets i p =
    IsFree sockets i p
    × IsFree sockets i (p + 1)
    × IsFree sockets i (p + 2)
    × IsFree sockets i (p + 3)
    × IsFree sockets i (p + 4)
    × IsFree sockets i (p + 5)

-- The first base port is `base`, and each later one stands `stride` above the one before it.
abbrev pub Spaced : ℕ → ℕ → List ℕ → Type 0
Spaced base stride [] = Unit
Spaced base stride (p ∷ ps) = (p ≡ base) × Spaced (base + stride) stride ps

blocks-Spaced :
    (base stride s n b : ℕ)
    → b ≡ base + s * stride
    → Spaced b stride (map (λ i. base + i * stride) (range s n))
blocks-Spaced base stride s zero b e = tt
blocks-Spaced base stride s (suc n) b e =
    (sym e, blocks-Spaced base stride (suc s) n (b + stride) (omega (arith, e)))

length-range : (f : ℕ → ℕ) (s n : ℕ) → length (map f (range s n)) ≡ n
length-range f s zero = refl
length-range f s (suc n) = ap suc (length-range f (suc s) n)

needed-BlockIsFree :
    (sockets : Sockets) (i : ℕ) (bases : List ℕ)
    → All (IsFree sockets i) (needed bases)
    → All (BlockIsFree sockets i) bases
unfolding needed
needed-BlockIsFree sockets i [] h = tt
needed-BlockIsFree sockets i (p ∷ bases) h =
    let (block, rest) = All-split (IsFree sockets i) (map (λ k. p + k) (range 0 6)) _ h in
    (
      (
        subst (IsFree sockets i) (omega arith) block.0,
        block.1.0,
        block.1.1.0,
        block.1.1.1.0,
        block.1.1.1.1.0,
        block.1.1.1.1.1.0,
      ),
      needed-BlockIsFree sockets i bases rest,
    )

-- What the search returns is a list of `count` base ports, the first of them the port that the
-- sockets gave on one of the 200 attempts and each later one `stride` above the one before it. On
-- that attempt the six ports of every block were below 65500 and could be bound.
pub find_free_base_ports-eq-ok :
    (sockets : Sockets) (count stride : ℕ) (bases : List ℕ)
    → find_free_base_ports sockets count stride ≡ ok bases
    → (j : ℕ) × (j < 200)
      × (length bases ≡ count)
      × Spaced (sockets.ephemeral_port j) stride bases
      × All (BlockIsFree sockets j) bases
unfolding find_free_base_ports blocks
find_free_base_ports-eq-ok sockets count stride bases h =
    let (j, lt, same, free) = search_from-eq-ok sockets count stride 0 200 bases h in
    let base = sockets.ephemeral_port j in
    (
      j,
      omega (arith, lt),
      ap length same ∙ length-range (λ i. base + i * stride) 0 count,
      subst (Spaced base stride) (sym same) (blocks-Spaced base stride 0 count base (omega arith)),
      needed-BlockIsFree sockets j bases free,
    )

maximum-cons : (x : ℕ) (xs : List ℕ) → (m : ℕ) × (maximum (x ∷ xs) ≡ ok m)
unfolding maximum
maximum-cons x [] = (x, refl)
maximum-cons x (y ∷ xs) = let (m, e) = maximum-cons y xs in (max x m, rw e)

-- An attempt whose first port cannot be bound is passed over.
passed_over :
    (test : ℕ → Bool) (x : ℕ) (xs : List ℕ) (found rest : Result (List ℕ))
    → test x ≡ false
    → (maximum (x ∷ xs) >>= λ m. if ltb m 65500 && all_of test (x ∷ xs) then found else rest) ≡ rest
unfolding all_of
passed_over test x xs found rest e =
    let (m, bound) = maximum-cons x xs in rw (bound, e) (never (ltb m 65500))
  where
    never : (b : Bool) → (if b && false then found else rest) ≡ rest
    never true = refl
    never false = refl

search_from-exhausted :
    (sockets : Sockets) (count stride i left : ℕ)
    → ((j p : ℕ) → sockets.can_bind j p ≡ false)
    → search_from sockets (suc count) stride i left ≡ err runtime_error
unfolding search_from blocks needed
search_from-exhausted sockets count stride i zero none_free = refl
search_from-exhausted sockets count stride i (suc left) none_free =
    passed_over (sockets.can_bind i) _ _ _ _ (none_free i _)
    ∙ search_from-exhausted sockets count stride (suc i) left none_free

-- Where no port can be bound, the search for one block or more raises RuntimeError, and the search
-- for none raises ValueError.
pub find_free_base_ports-exhausted :
    (sockets : Sockets) (count stride : ℕ)
    → ((j p : ℕ) → sockets.can_bind j p ≡ false)
    → (find_free_base_ports sockets (suc count) stride ≡ err runtime_error)
      × (find_free_base_ports sockets 0 stride ≡ err value_error)
unfolding find_free_base_ports
find_free_base_ports-exhausted sockets count stride none_free = (
  search_from-exhausted sockets count stride 0 200 none_free,
  unfold search_from blocks needed maximum in refl,
)
