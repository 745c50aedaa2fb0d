-- ===== src/Devnet/Layout/Arranged.antt =====
-- What `prepare_layout` leaves behind, against its description.
use tempo_py.Prelude.{
  ◌≡◌, ◌≢◌, refl, ap, ◌∙◌, Bool, true, false, ◌||◌, List, [], ◌∷◌, none, some, ok, All, Bool-cases,
  inl, inr, arith,
}
use mathlib.Core.Path.{fun_ext}
use tempo_py.Python.Bytes.{Str, eqb, eqb_refl}
use tempo_py.Devnet.Layout.{Dirs, clear, prepare_layout}
use tempo_py.Devnet.Layout.Moves.{
  Apart, AllApart, ne→eqb, in_dsts, not-in_dsts, arranged, selected, without, moved, moved-selected,
}
use tempo_py.Devnet.Layout.Clear.{
  AllApart-selected, IsMove, selected-IsMove, clear-renames, clear-without,
}
use tempo_py.Devnet.Layout.Rename.{IsReady, rename_all-moved}

dsts_inside : (ps : List (Str × Str)) → All (λ (q : Str × Str). in_dsts q.1 ps ≡ true) ps
unfolding in_dsts
dsts_inside [] = tt
dsts_inside (p ∷ ps) = (rw (eqb_refl p.1), later ps (dsts_inside ps))
  where
    later :
        (qs : List (Str × Str))
        → All (λ (q : Str × Str). in_dsts q.1 ps ≡ true) qs
        → All (λ (q : Str × Str). in_dsts q.1 (p ∷ ps) ≡ true) qs
    later [] h = tt
    later (q ∷ qs) h = (ground (arith, h.0), later qs h.1)

dsts-Apart :
    (p : Str × Str) (ps : List (Str × Str))
    → All (Apart p) ps
    → All (λ (q : Str × Str). q.1 ≢ p.0) ps
dsts-Apart p [] h = tt
dsts-Apart p (q ∷ ps) h = (h.0.3, dsts-Apart p ps h.1)

sources_outside :
    (ps : List (Str × Str))
    → AllApart ps
    → All (λ (q : Str × Str). eqb q.0 q.1 ≡ false) ps
    → All (λ (q : Str × Str). in_dsts q.0 ps ≡ false) ps
unfolding in_dsts
sources_outside [] a h = tt
sources_outside (p ∷ ps) a h =
    (rw (h.0, not-in_dsts p.0 ps (dsts-Apart p ps a.0)), later ps a.0 (sources_outside ps a.1 h.1))
  where
    later :
        (qs : List (Str × Str))
        → All (Apart p) qs
        → All (λ (q : Str × Str). in_dsts q.0 ps ≡ false) qs
        → All (λ (q : Str × Str). in_dsts q.0 (p ∷ ps) ≡ false) qs
    later [] ap' out = tt
    later (q ∷ qs) ap' out = (rw (ne→eqb q.0 p.1 ap'.0.2, out.0), later qs ap'.1 out.1)

module _ {ℓ} {D : Type ℓ} where
  cleared_source :
      (dirs : Dirs D) (rs : List (Str × Str)) (name : Str)
      → in_dsts name rs ≡ false
      → without dirs rs name ≡ dirs name
  cleared_source dirs rs name h = rw h

  cleared-IsReady :
      (dirs : Dirs D) (rs qs : List (Str × Str))
      → All (λ (q : Str × Str). in_dsts q.0 rs ≡ false) qs
      → All (λ (q : Str × Str). in_dsts q.1 rs ≡ true) qs
      → All (IsMove dirs) qs
      → All (IsReady (without dirs rs)) qs
  cleared-IsReady dirs rs [] out inside h = tt
  cleared-IsReady dirs rs (q ∷ qs) out inside h = (
    (
      ap (λ o. elim o [ some d ↦ true | none ↦ false ]) (cleared_source dirs rs q.0 out.0) ∙ h.0.1,
      rw inside.0,
    ),
    cleared-IsReady dirs rs qs out.1 inside.1 h.1,
  )

  moved-cleared :
      (dirs g : Dirs D) (ps : List (Str × Str)) (name : Str)
      → All (λ (q : Str × Str). g q.0 ≡ dirs q.0) ps
      → (in_dsts name ps ≡ false → g name ≡ dirs name)
      → moved g ps name ≡ moved dirs ps name
  unfolding moved in_dsts
  moved-cleared dirs g [] name h base = base refl
  moved-cleared dirs g (p ∷ ps) name h base = elim (Bool-cases (eqb name p.1)) [
    | inl e ↦ rw e h.0
    | inr e ↦ elim (Bool-cases (eqb name p.0)) [
      | inl f ↦ rw (e, f)
      | inr f ↦
          rw (e, f)
            (moved-cleared dirs g ps name h.1 (λ n. base (ap (λ b. b || in_dsts name ps) e ∙ n)))
    ]
  ]

  own_names :
      (dirs : Dirs D) (ps : List (Str × Str))
      → All (IsMove dirs) ps
      → All (λ (q : Str × Str). eqb q.0 q.1 ≡ false) ps
  own_names dirs [] h = tt
  own_names dirs (p ∷ ps) h = (h.0.0, own_names dirs ps h.1)

  All-sources :
      (dirs : Dirs D) (rs qs : List (Str × Str))
      → All (λ (q : Str × Str). in_dsts q.0 rs ≡ false) qs
      → All (λ (q : Str × Str). without dirs rs q.0 ≡ dirs q.0) qs
  All-sources dirs rs [] h = tt
  All-sources dirs rs (q ∷ qs) h = (cleared_source dirs rs q.0 h.0, All-sources dirs rs qs h.1)

  -- Where no two validators share a name, neither an address nor a moniker: `prepare_layout` raises
  -- nothing, and it leaves every directory of the data directory as the description says, each
  -- validator's under its moniker and all others where they were.
  pub prepare_layout-arranged :
      (is_empty : D → Bool) (dirs : Dirs D) (pairs : List (Str × Str))
      → AllApart pairs
      → (after' : Dirs D) × (prepare_layout is_empty dirs pairs ≡ ok after')
        × ((name : Str) → after' name ≡ arranged dirs pairs name)
  unfolding prepare_layout
  prepare_layout-arranged is_empty dirs pairs apart =
      let rs = selected dirs pairs in
      let apart_rs = AllApart-selected dirs pairs apart in
      let moves = selected-IsMove dirs pairs in
      let outside = sources_outside rs apart_rs (own_names dirs rs moves) in
      let ready = cleared-IsReady dirs rs rs outside (dsts_inside rs) moves in
      let (g', done, same) = rename_all-moved is_empty (without dirs rs) rs apart_rs ready in
      let cleared : (clear dirs pairs).0 ≡ without dirs rs =
        fun_ext (λ name. clear-without dirs pairs name apart) in
      (
        g',
        rw (cleared, clear-renames dirs pairs apart) done,
        λ name.
            same name
            ∙ moved-cleared dirs (without dirs rs) rs name (All-sources dirs rs rs outside)
                (cleared_source dirs rs name)
            ∙ moved-selected dirs pairs name,
      )
