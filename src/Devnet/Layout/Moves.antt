-- ===== src/Devnet/Layout/Moves.antt =====
-- Descriptions of what `prepare_layout` does that read only the old directories.
use tempo_py.Prelude.{
  ◌≡◌, ◌≢◌, refl, sym, Bool, false, not, ◌||◌, if◌then◌else◌, List, [], ◌∷◌, none, All, Bool-cases,
  inl, inr, arith,
}
use tempo_py.Python.Bytes.{Str, eqb, eqb→eq}
use tempo_py.Devnet.Layout.{Dirs, exists}

-- Two validators whose directories have nothing in common.
abbrev pub Apart : Str × Str → Str × Str → Type 0
Apart p q = (q.0 ≢ p.0) × (q.1 ≢ p.1) × (q.0 ≢ p.1) × (q.1 ≢ p.0)

abbrev pub AllApart : List (Str × Str) → Type 0
AllApart [] = Unit
AllApart (p ∷ ps) = All (Apart p) ps × AllApart ps

pub ne→eqb : (x y : Str) → x ≢ y → eqb x y ≡ false
ne→eqb x y h = elim (Bool-cases (eqb x y)) [ inl e ↦ absurd (h (eqb→eq x y e)) | inr e ↦ e ]

pub ne→eqb' : (x y : Str) → x ≢ y → eqb y x ≡ false
ne→eqb' x y h = ne→eqb y x (λ e. h (sym e))

-- Is `name` one of the destinations?
unfoldable pub in_dsts : Str → List (Str × Str) → Bool
in_dsts name [] = false
in_dsts name ((src, dst) ∷ pairs) = eqb name dst || in_dsts name pairs

pub not-in_dsts :
    (name : Str) (ps : List (Str × Str))
    → All (λ (q : Str × Str). q.1 ≢ name) ps
    → in_dsts name ps ≡ false
unfolding in_dsts
not-in_dsts name [] h = refl
not-in_dsts name ((s, d) ∷ ps) h = rw (ne→eqb' d name h.0, not-in_dsts name ps h.1)

module _ {ℓ} {D : Type ℓ} where
  -- The directory `name` afterwards: each validator that has a directory under its address, not
  -- its moniker, has it under its moniker and no longer under its address.
  unfoldable pub arranged : Dirs D → List (Str × Str) → Dirs D
  arranged dirs [] name = dirs name
  arranged dirs ((src, dst) ∷ pairs) name =
      let rest = arranged dirs pairs name in
      if eqb src dst || not (exists dirs src)
      then rest
      else if eqb name dst
      then dirs src
      else if eqb name src
      then none
      else rest

  -- The pairs that are renamed.
  unfoldable pub selected : Dirs D → List (Str × Str) → List (Str × Str)
  selected dirs [] = []
  selected dirs ((src, dst) ∷ pairs) =
      let rest = selected dirs pairs in
      if eqb src dst then rest else if exists dirs src then (src, dst) ∷ rest else rest

  -- The directories without the destinations of `pairs`.
  abbrev pub without : Dirs D → List (Str × Str) → Dirs D
  without dirs pairs name = if in_dsts name pairs then none else dirs name

  -- Each pair moved, all of them at once.
  unfoldable pub moved : Dirs D → List (Str × Str) → Dirs D
  moved dirs [] name = dirs name
  moved dirs ((src, dst) ∷ pairs) name =
      let rest = moved dirs pairs name in
      if eqb name dst then dirs src else if eqb name src then none else rest

  pub moved-selected :
      (dirs : Dirs D) (ps : List (Str × Str)) (name : Str)
      → moved dirs (selected dirs ps) name ≡ arranged dirs ps name
  unfolding moved selected arranged
  moved-selected dirs [] name = refl
  moved-selected dirs ((s, d) ∷ ps) name =
      ground (arith, moved-selected dirs ps name, Bool-cases (eqb s d), Bool-cases (exists dirs s))

  pub All-selected {κ} :
      (P : Str × Str → Type κ) (dirs : Dirs D) (ps : List (Str × Str))
      → All P ps
      → All P (selected dirs ps)
  unfolding selected
  All-selected P dirs [] h = tt
  All-selected P dirs ((s, d) ∷ ps) h = elim (Bool-cases (eqb s d)) [
    | inl e ↦ rw e (All-selected P dirs ps h.1)
    | inr e ↦ elim (Bool-cases (exists dirs s)) [
      | inl f ↦ rw (e, f) (h.0, All-selected P dirs ps h.1)
      | inr f ↦ rw (e, f) (All-selected P dirs ps h.1)
    ]
  ]
