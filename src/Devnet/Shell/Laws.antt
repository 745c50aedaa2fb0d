-- ===== src/Devnet/Shell/Laws.antt =====
-- A shell reads the wrapper scripts as the commands that they were written for.
use tempo_py.Prelude.{
  ℕ, ◌==◌, ◌≡◌, refl, sym, ◌∙◌, ap, Bool, true, false, List, [], ◌∷◌, ◌++◌, append_assoc,
  append-nil, none, some, ok, Bool-cases, ==_iff, inl, inr,
}
use tempo_py.Python.Bytes.{Str, codes}
use tempo_py.Python.Text.{join}
use tempo_py.Python.Text.Laws.{join-append}
use tempo_py.Devnet.Shell.{
  newline, apostrophe, escape, sh_quote, arg_lines, preamble, run_script_content,
}
use tempo_py.Devnet.Shell.Words.{scan, kind, plain, quoted, finish}

escape-other : (c : ℕ) (s : Str) → (c == 39) ≡ false → escape (c ∷ s) ≡ c ∷ escape s
unfolding escape
escape-other c s e = rw e

escape-apostrophe :
    (c : ℕ) (s : Str)
    → (c == 39) ≡ true
    → escape (c ∷ s) ≡ apostrophe ∷ 92 ∷ apostrophe ∷ apostrophe ∷ escape s
unfolding escape
escape-apostrophe c s e = rw e

scan_other :
    (c : ℕ) (w s : Str)
    → (c == 39) ≡ false
    → scan quoted (some w) (c ∷ s) ≡ scan quoted (some (w ++ (c ∷ []))) s
unfolding scan
scan_other c w s e = rw (scan, e) refl

scan-escape :
    (s w rest : Str)
    → scan quoted (some w) (escape s ++ (apostrophe ∷ rest)) ≡ scan plain (some (w ++ s)) rest
unfolding scan kind
scan-escape [] w rest = unfold escape in ap (λ v. scan plain (some v) rest) (sym (append-nil w))
scan-escape (c ∷ s) w rest = elim (Bool-cases (c == 39)) [
  | inl e ↦ rw (escape-apostrophe c s e) (
      scan-escape s (w ++ (39 ∷ [])) rest
      ∙ ap (λ v. scan plain (some v) rest)
          (append_assoc w (39 ∷ []) s ∙ ap (λ (d : ℕ). w ++ (d ∷ s)) (sym ((==_iff c 39).0 e))))
  | inr e ↦ rw (escape-other c s e) (
      scan_other c w (escape s ++ (apostrophe ∷ rest)) e
      ∙ scan-escape s (w ++ (c ∷ [])) rest
      ∙ ap (λ v. scan plain (some v) rest) (append_assoc w (c ∷ []) s))
]

-- A quoted text is one word, whatever is in it.
pub scan-sh_quote : (s rest : Str) → scan plain none (sh_quote s ++ rest) ≡ scan plain (some s) rest
unfolding sh_quote scan kind
scan-sh_quote s rest =
    ap (scan quoted (some [])) (append_assoc (escape s) (apostrophe ∷ []) rest)
    ∙ scan-escape s [] rest

last_line : (a : Str) → arg_lines (a ∷ []) ++ newline ≡ 32 ∷ 32 ∷ (sh_quote a ++ newline)
unfolding arg_lines join
last_line a = refl

next_line :
    (a b : Str) (args : List Str)
    → arg_lines (a ∷ b ∷ args) ++ newline
      ≡ 32 ∷ 32 ∷ (sh_quote a ++ (32 ∷ 92 ∷ 10 ∷ (arg_lines (b ∷ args) ++ newline)))
unfolding arg_lines join
next_line a b args = ap (λ t. 32 ∷ 32 ∷ t) (append_assoc (sh_quote a) _ newline)

indented : (text : Str) → scan plain none (32 ∷ 32 ∷ text) ≡ scan plain none text
unfolding scan kind
indented text = refl

ended : (w : Str) → scan plain (some w) newline ≡ some (w ∷ [], [])
unfolding scan kind
ended w = refl

continued :
    (w text : Str)
    → scan plain (some w) (32 ∷ 92 ∷ 10 ∷ text) ≡ finish (some w) (scan plain none text)
unfolding scan kind
continued w text = refl

-- The lines of the arguments, with the line end behind them, are the arguments.
scan-arg_lines : (args : List Str) → scan plain none (arg_lines args ++ newline) ≡ some (args, [])
scan-arg_lines [] = unfold arg_lines join scan kind in refl
scan-arg_lines (a ∷ []) =
    ap (scan plain none) (last_line a)
    ∙ indented (sh_quote a ++ newline)
    ∙ scan-sh_quote a newline
    ∙ ended a
scan-arg_lines (a ∷ b ∷ args) =
    ap (scan plain none) (next_line a b args)
    ∙ indented (sh_quote a ++ _)
    ∙ scan-sh_quote a _
    ∙ continued a _
    ∙ ap (finish (some a)) (scan-arg_lines (b ∷ args))

command_text : Str → List Str → Str
command_text binary args =
    codes "exec " ++ (sh_quote binary ++ (32 ∷ 92 ∷ 10 ∷ (arg_lines args ++ newline)))

joined_lines :
    (binary : Str) (args : List Str)
    → join newline ((codes "exec " ++ (sh_quote binary ++ codes " \\")) ∷ arg_lines args ∷ [] ∷ [])
      ≡ command_text binary args
unfolding join command_text
joined_lines binary args =
    ap (λ t. codes "exec " ++ t) (append_assoc (sh_quote binary) (codes " \\") _)

exec_word :
    (text : Str)
    → scan plain none (codes "exec " ++ text) ≡ finish (some (codes "exec")) (scan plain none text)
unfolding scan kind
exec_word text = refl

scan-command_text :
    (binary : Str) (args : List Str)
    → scan plain none (command_text binary args) ≡ some (codes "exec" ∷ binary ∷ args, [])
unfolding command_text
scan-command_text binary args =
    exec_word (sh_quote binary ++ _)
    ∙ ap (finish (some (codes "exec"))) (
        scan-sh_quote binary _
        ∙ continued binary _
        ∙ ap (finish (some binary)) (scan-arg_lines args))

-- A script for a nonempty argument list consists of its preamble, a line end, and a text that a
-- shell reads as one command: `exec` with exactly these arguments, whatever characters are in them.
pub scan-run_script_content :
    (binary : Str) (args : List Str) (tag : Str) (include_set_eu : Bool)
    → (command : Str) × (run_script_content (binary ∷ args) tag include_set_eu
        ≡ ok (join newline (preamble tag include_set_eu) ++ (newline ++ command)))
      × (scan plain none command ≡ some (codes "exec" ∷ binary ∷ args, []))
unfolding run_script_content preamble
scan-run_script_content binary args tag include_set_eu = (
  command_text binary args,
  ap ok (
      join-append newline _ _ _ _
      ∙ ap (λ t. join newline (preamble tag include_set_eu) ++ (newline ++ t))
          (joined_lines binary args)),
  scan-command_text binary args,
)
