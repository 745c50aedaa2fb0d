-- ===== src/Devnet/Supervisor/Scripts.antt =====
-- The script of each validator, as a shell reads it.
use tempo_py.Prelude.{ℕ, ◌≡◌, refl, sym, ap, ◌∙◌, false, List, [], ◌∷◌, ◌++◌, none, some, ok, subst}
use tempo_py.Python.Bytes.{Str, codes}
use tempo_py.Python.Text.{join}
use tempo_py.Devnet.Config.{ValidatorConfig}
use tempo_py.Devnet.DevnetConfig.{DevnetConfig}
use tempo_py.Devnet.Backends.{
  Backend, tempo, allegro, node_args, tempo_node_args, allegro_node_args, common_node_args,
}
use tempo_py.Devnet.Shell.{newline, preamble, run_script_content}
use tempo_py.Devnet.Shell.Words.{scan, plain}
use tempo_py.Devnet.Shell.Laws.{scan-run_script_content}
use tempo_py.Devnet.Supervisor.{validator_args}

-- A script that a shell reads as `exec` with these arguments, behind its first lines.
abbrev pub Runs : Str → List Str → Type 0
Runs script args =
    (command : Str) × (script ≡ join newline (preamble [] false) ++ (newline ++ command))
    × (scan plain none command ≡ some (codes "exec" ∷ args, []))

script-Runs :
    (binary : Str) (args : List Str)
    → (script : Str) × (run_script_content (binary ∷ args) [] false ≡ ok script)
      × Runs script (binary ∷ args)
script-Runs binary args =
    let (command, e, f) = scan-run_script_content binary args [] false in (_, e, (command, refl, f))

some_args :
    (c : DevnetConfig) (path : Str) (peers : List Str) (index : ℕ) (val : ValidatorConfig)
    (backend : Backend)
    → (binary : Str) × (args : List Str) × (validator_args c path backend peers index val
        ≡ binary ∷ args)
unfolding node_args tempo_node_args allegro_node_args common_node_args
some_args c path peers index val tempo = (c.tempo_bin, _, refl)
some_args c path peers index val allegro = (c.tempo_bin, _, refl)

module _ (c : DevnetConfig) (path : Str) (backend : Backend) (peers : List Str) where
  pub validator_script :
      (index : ℕ) (val : ValidatorConfig)
      → (script : Str) × (run_script_content
            (validator_args c path backend peers index val)
            []
            false
          ≡ ok script)
        × Runs script (validator_args c path backend peers index val)
  validator_script index val =
      let (binary, args, e) = some_args c path peers index val backend in
      let (script, f, runs) = script-Runs binary args in
      (script, ap (λ as'. run_script_content as' [] false) e ∙ f, subst (Runs script) (sym e) runs)
