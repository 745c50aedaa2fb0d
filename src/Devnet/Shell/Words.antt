-- ===== src/Devnet/Shell/Words.antt =====
-- How a POSIX shell splits a simple command into words, as section 2.2 and 2.3 of its standard
-- describe it: quotes, escapes, continued lines. A character with another meaning is not read.
use tempo_py.Prelude.{
  ℕ, ◌==◌, ◌||◌, Bool, true, false, if◌then◌else◌, List, [], ◌∷◌, ◌++◌, Option, none, some,
}
use tempo_py.Python.Bytes.{Str, codes}

pub data Kind : Type 0 where
  line_end blank quote backslash special ordinary : Kind

abbrev pub is_one_of : ℕ → Str → Bool
is_one_of c [] = false
is_one_of c (d ∷ ds) = c == d || is_one_of c ds

unfoldable pub kind : ℕ → Kind
kind c =
    if c == 10
    then line_end
    else if c == b' ' || c == 9
    then blank
    else if c == 39
    then quote
    else if c == b'\\'
    then backslash
    else if is_one_of c (codes "\"$`;&|<>()*?[#~=%!{}")
    then special
    else ordinary

pub data Mode : Type 0 where
  plain quoted escaped : Mode

-- The word that is being read; none between words.
abbrev pub extend : Option Str → ℕ → Option Str
extend none c = some (c ∷ [])
extend (some w) c = some (w ++ (c ∷ []))

abbrev pub start : Option Str → Option Str
start none = some []
start (some w) = some w

abbrev pub finish : Option Str → Option (List Str × Str) → Option (List Str × Str)
finish none rest = rest
finish (some w) none = none
finish (some w) (some (ws, behind)) = some (w ∷ ws, behind)

-- The words of the command at the front, and what is behind the end of its line.
unfoldable pub scan : Mode → Option Str → Str → Option (List Str × Str)
unfolding kind
scan plain w [] = finish w (some ([], []))
scan plain w (c ∷ cs) = elim (kind c) [
  | line_end ↦ finish w (some ([], cs))
  | blank ↦ finish w (scan plain none cs)
  | quote ↦ scan quoted (start w) cs
  | backslash ↦ scan escaped w cs
  | special ↦ none
  | ordinary ↦ scan plain (extend w c) cs
]
scan quoted w [] = none
scan quoted w (c ∷ cs) = elim (c == 39) [
  | true ↦ scan plain w cs
  | false ↦ scan quoted (extend w c) cs
]
scan escaped w [] = none
scan escaped w (c ∷ cs) = elim (c == 10) [
  | true ↦ scan plain w cs
  | false ↦ scan plain (extend w c) cs
]
