-- ===== src/Devnet/Layout.antt =====
-- `prepare_layout` of tempo/devnet/backends.py: the directories of the validators in the data
-- directory. A directory's contents are of any type `D`.
pub mod Moves
pub mod Clear
pub mod Rename
pub mod Arranged
use tempo_py.Prelude.{
  ℕ, Bool, true, false, not, if◌then◌else◌, List, [], ◌∷◌, ◌++◌, map, Option, none, some, Result,
  ok, err, os_error, ◌>>=◌,
}
use tempo_py.Python.Bytes.{Str, eqb}

-- The directories by their names.
abbrev pub Dirs {ℓ} : Type ℓ → Type ℓ
Dirs D = Str → Option D

module _ {ℓ} {D : Type ℓ} where
  abbrev pub exists : Dirs D → Str → Bool
  exists dirs name = elim (dirs name) [ some d ↦ true | none ↦ false ]

  abbrev pub update : Dirs D → Str → Option D → Dirs D
  update dirs name d other = if eqb other name then d else dirs other

  -- The first loop of `TempoBackend.prepare_layout` over the sources and destinations: it clears
  -- the destinations, and gives `rename_map`.
  unfoldable pub clear : Dirs D → List (Str × Str) → Dirs D × List (Str × Str)
  clear dirs [] = (dirs, [])
  clear dirs ((src, dst) ∷ pairs) =
      let skipped = clear dirs pairs in
      let (after, renames) = clear (update dirs dst none) pairs in
      if eqb src dst
      then skipped
      else if exists dirs src
      then (after, (src, dst) ∷ renames)
      else skipped

  -- `src.rename(dst)`, which replaces an empty directory and refuses any other.
  unfoldable pub rename : (D → Bool) → Dirs D → Str → Str → Result (Dirs D)
  rename is_empty dirs src dst = elim (dirs src) [
    | none ↦ err os_error
    | some d ↦ elim (dirs dst) [
      | none ↦ ok (update (update dirs src none) dst (some d))
      | some old ↦
          if is_empty old then ok (update (update dirs src none) dst (some d)) else err os_error
    ]
  ]

  -- The second loop.
  unfoldable pub rename_all : (D → Bool) → Dirs D → List (Str × Str) → Result (Dirs D)
  rename_all is_empty dirs [] = ok dirs
  rename_all is_empty dirs ((src, dst) ∷ pairs) =
      rename is_empty dirs src dst >>= λ after. rename_all is_empty after pairs

  -- `TempoBackend.prepare_layout`, from the source and the destination of each validator.
  unfoldable pub prepare_layout : (D → Bool) → Dirs D → List (Str × Str) → Result (Dirs D)
  prepare_layout is_empty dirs pairs =
      let (after, renames) = clear dirs pairs in rename_all is_empty after renames

  -- `AllegroBackend.prepare_layout`: `mkdir(exist_ok=True)` for each name.
  unfoldable pub make_dirs : D → Dirs D → List Str → Dirs D
  make_dirs new dirs [] = dirs
  make_dirs new dirs (name ∷ names) =
      make_dirs new (if exists dirs name then dirs else update dirs name (some new)) names
