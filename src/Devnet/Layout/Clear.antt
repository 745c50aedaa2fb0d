-- ===== src/Devnet/Layout/Clear.antt =====
-- The first loop of `prepare_layout`: the pairs that it chooses and the directories that it leaves.
use tempo_py.Prelude.{
  ◌≡◌, ◌≢◌, refl, ap, ◌∙◌, Bool, true, false, ◌||◌, if◌then◌else◌, List, [], ◌∷◌, Option, none,
  some, All, Bool-cases, inl, inr, arith,
}
use tempo_py.Python.Bytes.{Str, eqb}
use tempo_py.Devnet.Layout.{Dirs, exists, update, clear}
use tempo_py.Devnet.Layout.Moves.{Apart, AllApart, ne→eqb, in_dsts, selected, without, All-selected}

sources :
    (p : Str × Str) (ps : List (Str × Str))
    → All (Apart p) ps
    → All (λ (q : Str × Str). q.0 ≢ p.1) ps
sources p [] h = tt
sources p (q ∷ ps) h = (h.0.2, sources p ps h.1)

module _ {ℓ} {D : Type ℓ} where
  -- What a pair adds to the choice.
  abbrev choose : Bool → Option D → Str × Str → List (Str × Str) → List (Str × Str)
  choose same o p rest =
      if same then rest else if elim o [ some d ↦ true | none ↦ false ] then p ∷ rest else rest

  update-other :
      (dirs : Dirs D) (name s : Str) (d : Option D) → s ≢ name → update dirs name d s ≡ dirs s
  update-other dirs name s d h = rw (ne→eqb s name h)

  -- Taking away a directory that is no source changes no choice.
  selected-update :
      (dirs : Dirs D) (name : Str) (d : Option D) (ps : List (Str × Str))
      → All (λ (q : Str × Str). q.0 ≢ name) ps
      → selected (update dirs name d) ps ≡ selected dirs ps
  unfolding selected
  selected-update dirs name d [] h = refl
  selected-update dirs name d ((s, t) ∷ ps) h =
      ap (λ o. choose (eqb s t) o (s, t) (selected (update dirs name d) ps))
        (update-other dirs name s d h.0)
      ∙ ap (choose (eqb s t) (dirs s) (s, t)) (selected-update dirs name d ps h.1)

  pub AllApart-selected :
      (dirs : Dirs D) (ps : List (Str × Str)) → AllApart ps → AllApart (selected dirs ps)
  unfolding selected
  AllApart-selected dirs [] h = tt
  AllApart-selected dirs ((s, d) ∷ ps) h = elim (Bool-cases (eqb s d)) [
    | inl e ↦ rw e (AllApart-selected dirs ps h.1)
    | inr e ↦ elim (Bool-cases (exists dirs s)) [
      | inl f ↦ rw (e, f) (All-selected (Apart (s, d)) dirs ps h.0, AllApart-selected dirs ps h.1)
      | inr f ↦ rw (e, f) (AllApart-selected dirs ps h.1)
    ]
  ]

  -- Each chosen pair has a source, which is not its destination.
  abbrev pub IsMove : Dirs D → Str × Str → Type 0
  IsMove dirs p = (eqb p.0 p.1 ≡ false) × (exists dirs p.0 ≡ true)

  pub selected-IsMove :
      (dirs : Dirs D) (ps : List (Str × Str)) → All (IsMove dirs) (selected dirs ps)
  unfolding selected
  selected-IsMove dirs [] = tt
  selected-IsMove dirs ((s, d) ∷ ps) = elim (Bool-cases (eqb s d)) [
    | inl e ↦ rw e (selected-IsMove dirs ps)
    | inr e ↦ elim (Bool-cases (exists dirs s)) [
      | inl f ↦ rw (e, f) ((e, f), selected-IsMove dirs ps)
      | inr f ↦ rw (e, f) (selected-IsMove dirs ps)
    ]
  ]

  pub clear-renames :
      (dirs : Dirs D) (ps : List (Str × Str)) → AllApart ps → (clear dirs ps).1 ≡ selected dirs ps
  unfolding clear selected
  clear-renames dirs [] h = refl
  clear-renames dirs ((s, d) ∷ ps) h = elim (Bool-cases (eqb s d)) [
    | inl e ↦ rw e (clear-renames dirs ps h.1)
    | inr e ↦ elim (Bool-cases (exists dirs s)) [
      | inl f ↦
          rw (e, f)
            (ap (λ t. (s, d) ∷ t)
              (clear-renames (update dirs d none) ps h.1
                ∙ selected-update dirs d none ps (sources (s, d) ps h.0)))
      | inr f ↦ rw (e, f) (clear-renames dirs ps h.1)
    ]
  ]

  without-update :
      (dirs : Dirs D) (d name : Str) (rs : List (Str × Str))
      → without (update dirs d none) rs name
        ≡ (if eqb name d || in_dsts name rs then none else dirs name)
  without-update dirs d name rs = ground arith

  pub clear-without :
      (dirs : Dirs D) (ps : List (Str × Str)) (name : Str)
      → AllApart ps
      → (clear dirs ps).0 name ≡ without dirs (selected dirs ps) name
  unfolding clear selected
  clear-without dirs [] name h = unfold in_dsts in refl
  clear-without dirs ((s, d) ∷ ps) name h = elim (Bool-cases (eqb s d)) [
    | inl e ↦ rw e (clear-without dirs ps name h.1)
    | inr e ↦ elim (Bool-cases (exists dirs s)) [
      | inl f ↦
          rw (e, f)
            (clear-without (update dirs d none) ps name h.1
              ∙ ap (λ rs. without (update dirs d none) rs name)
                  (selected-update dirs d none ps (sources (s, d) ps h.0))
              ∙ without-update dirs d name (selected dirs ps)
              ∙ unfold in_dsts in refl)
      | inr f ↦ rw (e, f) (clear-without dirs ps name h.1)
    ]
  ]
