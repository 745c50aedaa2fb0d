-- ===== src/Devnet/Layout/Rename.antt =====
-- The second loop of `prepare_layout`: each chosen pair is moved.
use tempo_py.Prelude.{
  ◌≡◌, ◌≢◌, refl, sym, ap, ◌∙◌, Bool, true, false, List, [], ◌∷◌, Option, none, some, ok, All,
  Bool-cases, inl, inr,
}
use tempo_py.Python.Bytes.{Str, eqb, eqb→eq}
use tempo_py.Devnet.Layout.{Dirs, exists, update, rename, rename_all}
use tempo_py.Devnet.Layout.Moves.{Apart, AllApart, ne→eqb, moved}

sources :
    (p : Str × Str) (ps : List (Str × Str))
    → All (Apart p) ps
    → All (λ (q : Str × Str). q.0 ≢ p.1) ps
sources p [] h = tt
sources p (q ∷ ps) h = (h.0.2, sources p ps h.1)

exclusive : (x y name : Str) → x ≢ y → eqb name x ≡ true → eqb name y ≡ false
exclusive x y name h e = ne→eqb name y (λ e'. h (sym (eqb→eq name x e) ∙ e'))

module _ {ℓ} {D : Type ℓ} where
  -- The state in front of the second loop: the sources exist, the destinations do not.
  abbrev pub IsReady : Dirs D → Str × Str → Type ℓ
  IsReady g p = (exists g p.0 ≡ true) × (g p.1 ≡ none)

  found : (o : Option D) → (elim o [ some d ↦ true | none ↦ false ]) ≡ true → (d : D) × (o ≡ some d)
  found none h = cc
  found (some d) h = (d, refl)

  -- One renaming, of a pair that is ready.
  pub after : Dirs D → Str × Str → Dirs D
  after g p = update (update g p.0 none) p.1 (g p.0)

  rename-after :
      (is_empty : D → Bool) (g : Dirs D) (p : Str × Str)
      → IsReady g p
      → rename is_empty g p.0 p.1 ≡ ok (after g p)
  unfolding rename after
  rename-after is_empty g p h = let (d, e) = found (g p.0) h.0 in rw (rename, e, h.1) refl

  after-other :
      (g : Dirs D) (p : Str × Str) (name : Str) → name ≢ p.0 → name ≢ p.1 → after g p name ≡ g name
  unfolding after
  after-other g p name h h' = rw (ne→eqb name p.1 h', ne→eqb name p.0 h)

  after-IsReady :
      (g : Dirs D) (p : Str × Str) (ps : List (Str × Str))
      → All (Apart p) ps
      → All (IsReady g) ps
      → All (IsReady (after g p)) ps
  after-IsReady g p [] a h = tt
  after-IsReady g p (q ∷ ps) a h = (
    (
      ap (λ o. elim o [ some d ↦ true | none ↦ false ]) (after-other g p q.0 a.0.0 a.0.2) ∙ h.0.0,
      after-other g p q.1 a.0.3 a.0.1 ∙ h.0.1,
    ),
    after-IsReady g p ps a.1 h.1,
  )

  moved-after :
      (g : Dirs D) (p : Str × Str) (ps : List (Str × Str)) (name : Str)
      → All (Apart p) ps
      → moved (after g p) ps name ≡ moved g (p ∷ ps) name
  unfolding moved
  moved-after g p [] name h = unfold after in refl
  moved-after g p (q ∷ ps) name h =
      let source = after-other g p q.0 h.0.0 h.0.2 in
      let rest = moved-after g p ps name h.1 in
      elim (Bool-cases (eqb name q.1)) [
        | inl e ↦ rw (e, exclusive q.1 p.1 name h.0.1 e, exclusive q.1 p.0 name h.0.3 e) source
        | inr e ↦ elim (Bool-cases (eqb name q.0)) [
          | inl f ↦ rw (e, f, exclusive q.0 p.1 name h.0.2 f, exclusive q.0 p.0 name h.0.0 f)
          | inr f ↦ rw (e, f) rest
        ]
      ]

  pub rename_all-moved :
      (is_empty : D → Bool) (g : Dirs D) (ps : List (Str × Str))
      → AllApart ps
      → All (IsReady g) ps
      → (g' : Dirs D) × (rename_all is_empty g ps ≡ ok g')
        × ((name : Str) → g' name ≡ moved g ps name)
  unfolding rename_all
  rename_all-moved is_empty g [] a h = (g, refl, λ name. unfold moved in refl)
  rename_all-moved is_empty g (p ∷ ps) a h =
      let (g', done, same) =
        rename_all-moved is_empty (after g p) ps a.1 (after-IsReady g p ps a.0 h.1) in
      (g', rw (rename-after is_empty g p h.0) done, λ name. same name ∙ moved-after g p ps name a.0)
