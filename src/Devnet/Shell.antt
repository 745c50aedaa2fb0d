-- ===== src/Devnet/Shell.antt =====
-- The wrapper scripts of tempo/devnet/supervisor.py: `_sh_quote` and `_write_run_script_content`.
pub mod Words
pub mod Laws
use tempo_py.Prelude.{
  ℕ, ◌==◌, Bool, if◌then◌else◌, List, [], ◌∷◌, ◌++◌, map, Result, ok, err, index_error,
}
use tempo_py.Python.Bytes.{Str, codes}
use tempo_py.Python.Text.{join}

abbrev pub newline : Str
newline = 10 ∷ []

abbrev pub apostrophe : ℕ
apostrophe = 39

-- `s.replace("'", "'\\''")`
unfoldable pub escape : Str → Str
escape [] = []
escape (c ∷ s) =
    let rest = escape s in
    if c == apostrophe then apostrophe ∷ b'\\' ∷ apostrophe ∷ apostrophe ∷ rest else c ∷ rest

unfoldable pub sh_quote : Str → Str
sh_quote s = apostrophe ∷ (escape s ++ (apostrophe ∷ []))

-- `" \\\n".join("  " + _sh_quote(a) for a in …)`
unfoldable pub arg_lines : List Str → Str
arg_lines args = join (codes " \\" ++ newline) (map (λ a. codes "  " ++ sh_quote a) args)

-- The lines in front of the command: `tag_suffix` and `include_set_eu`.
unfoldable pub preamble : Str → Bool → List Str
preamble tag include_set_eu =
    codes "#!/bin/sh"
    ∷ (codes "# auto-generated by tempo-devnet" ++ tag_suffix tag)
    ∷ []
    ∷ (set_eu include_set_eu ++ (codes "cd \"$(dirname \"$0\")\"" ∷ [] ∷ []))
  where
    tag_suffix : Str → Str
    tag_suffix [] = []
    tag_suffix (c ∷ cs) = codes " (" ++ ((c ∷ cs) ++ codes ")")

    set_eu : Bool → List Str
    set_eu include = if include then codes "set -eu" ∷ [] ∷ [] else []

-- `_write_run_script_content`; `node_args[0]` raises on an empty list.
unfoldable pub run_script_content : List Str → Str → Bool → Result Str
run_script_content [] tag include_set_eu = err index_error
run_script_content (binary ∷ args) tag include_set_eu = ok (
    join newline (
      preamble tag include_set_eu
      ++ ((codes "exec " ++ (sh_quote binary ++ codes " \\")) ∷ arg_lines args ∷ [] ∷ [])))
