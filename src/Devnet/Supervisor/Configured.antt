-- ===== src/Devnet/Supervisor/Configured.antt =====
-- The supervisord.ini and the scripts of a whole call, against their description.
use tempo_py.Prelude.{
  ◌≡◌, ◌⊎◌, inl, inr, refl, ap, ◌∙◌, Bool, false, List, [], ◌∷◌, ◌++◌, map, some, ok, err, ◌>>=◌,
  duplicate_section_error, All,
}
use tempo_py.Python.Bytes.{Str, eqb}
use tempo_py.Devnet.Yaml.{Entries}
use tempo_py.Devnet.Config.{ValidatorConfig}
use tempo_py.Devnet.DevnetConfig.{DevnetConfig}
use tempo_py.Devnet.Backends.{Backend, get_backend}
use tempo_py.Devnet.Docker.Commands.{Enodes, trusted_peers}
use tempo_py.Devnet.Supervisor.{
  base_sections, Written, add_programs, Files, write_config, patched, keeps_old,
  generate_supervisor_config,
}
use tempo_py.Devnet.Supervisor.Programs.{IsFree, AllNew, program, AllRun, add_programs-cases}

base-IsFree : (path : Str) (vals : List ValidatorConfig) → All (IsFree (base_sections path)) vals
unfolding base_sections eqb
base-IsFree path [] = tt
base-IsFree path (v ∷ vals) = (refl, base-IsFree path vals)

module _ {ℓ} {G : Type ℓ} (merge : G → Entries → G) (c : DevnetConfig) (enodes : Enodes)
    (path : Str) where
  -- The old files with the programs and scripts of the validators added.
  abbrev pub IsConfigured : Backend → Files G → Files G → Type 0
  IsConfigured backend files out =
      (out.ini ≡ some (base_sections path ++ map (program path) c.validators))
      × (scripts : List (Str × Str)) × (out.scripts ≡ files.scripts ++ scripts)
      × AllRun c path backend (trusted_peers enodes c.validators) 0 c.validators scripts

  start : Files G → Written
  start files = record {
    sections = base_sections path;
    scripts = files.scripts;
    secrets = files.secrets;
    reth = files.reth;
  }

  finished : Files G → Written → Files G
  finished files w = record files {
    ini = some w.sections;
    scripts = w.scripts;
    secrets = w.secrets;
    reth = w.reth;
  }

  runs_loop :
      (force : Bool) (files : Files G) (backend : Backend)
      → get_backend c.backend ≡ ok backend
      → keeps_old files.ini force ≡ false
      → generate_supervisor_config merge c enodes path force files ≡ (
          add_programs c path backend
            (trusted_peers enodes c.validators)
            0
            c.validators
            (start files)
          >>= λ w. ok (finished (patched merge c files) w))
  unfolding generate_supervisor_config write_config start finished patched
  runs_loop force files backend b s = rw (s, b) refl

  -- For a known backend, where an old supervisord.ini does not stop it: `generate_supervisor_config`
  -- returns if and only if the validators' monikers differ, and otherwise raises
  -- DuplicateSectionError. Where it returns, supervisord.ini has the fixed sections and then one
  -- program for each validator in order, and for each validator in order a script has been written
  -- that a shell reads as `exec` with the arguments of its node.
  pub generate_supervisor_config-IsConfigured :
      (force : Bool) (files : Files G) (backend : Backend)
      → get_backend c.backend ≡ ok backend
      → keeps_old files.ini force ≡ false
      → (AllNew c.validators
          × (out : Files G) × (generate_supervisor_config merge c enodes path force files ≡ ok out)
          × IsConfigured backend files out)
        ⊎ ((¬ AllNew c.validators)
            × (generate_supervisor_config merge c enodes path force files
                ≡ err duplicate_section_error))
  unfolding start finished patched
  generate_supervisor_config-IsConfigured force files backend b s =
      let begun = runs_loop force files backend b s in
      elim (add_programs-cases c path backend (trusted_peers enodes c.validators) 0 c.validators
        (start files)) [
          | inl (new, w, done, (sections, scripts, e, all)) ↦ inl (
            new.1,
            finished (patched merge c files) w,
            begun ∙ ap (λ r. r >>= λ w'. ok (finished (patched merge c files) w')) done,
            (ap some sections, scripts, e, all),
          )
          | inr (clash, failed) ↦ inr (
            (λ (new : AllNew c.validators). clash (base-IsFree path c.validators, new)),
            begun ∙ ap (λ r. r >>= λ w'. ok (finished (patched merge c files) w')) failed,
          )
        ]
