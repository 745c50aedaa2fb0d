-- ===== src/Devnet/Supervisor/Programs.antt =====
-- The programs of supervisord.ini and their scripts, against a description by validator.
use tempo_py.Prelude.{
  ℕ, suc, ◌≡◌, ◌≢◌, ◌⊎◌, inl, inr, refl, sym, ap, ◌∙◌, true, false, ◌||◌, List, [], ◌∷◌, ◌++◌,
  append_assoc, append-nil, map, ok, err, duplicate_section_error, Bool-cases, All, arith,
}
use tempo_py.Python.Bytes.{Str, eqb, eqb_refl, eqb→eq}
use tempo_py.Devnet.Config.{ValidatorConfig}
use tempo_py.Devnet.DevnetConfig.{DevnetConfig}
use tempo_py.Devnet.Backends.{Backend}
use tempo_py.Devnet.Shell.{run_script_content}
use tempo_py.Devnet.Supervisor.{
  Ini, has_section, program_name, program_options, Written, write_secret_file, write_reth_config,
  validator_args, add_programs,
}
use tempo_py.Devnet.Supervisor.Scripts.{Runs, validator_script}

-- The moniker is not that of any of these validators.
abbrev pub IsNew : Str → List ValidatorConfig → Type 0
IsNew moniker vals = All (λ (v : ValidatorConfig). moniker ≢ v.moniker) vals

-- The monikers differ.
abbrev pub AllNew : List ValidatorConfig → Type 0
AllNew [] = Unit
AllNew (v ∷ vals) = IsNew v.moniker vals × AllNew vals

-- The section of a validator.
abbrev pub program : Str → ValidatorConfig → Str × List (Str × Str)
program path val = (program_name val.moniker, program_options path val.moniker)

has_section-append :
    (ini : Ini) (name new : Str) (options : List (Str × Str))
    → has_section (ini ++ ((new, options) ∷ [])) name ≡ (has_section ini name || eqb new name)
has_section-append [] name new options = ground arith
has_section-append (s ∷ ini) name new options =
    ground (arith, has_section-append ini name new options)

program_name-eqb : (a b : Str) → eqb (program_name a) (program_name b) ≡ eqb a b
unfolding eqb
program_name-eqb a b = refl

-- The section of the validator is not there.
abbrev pub IsFree : Ini → ValidatorConfig → Type 0
IsFree ini val = has_section ini (program_name val.moniker) ≡ false

module _ (path : Str) (v : ValidatorConfig) where
  freed :
      (ini : Ini) (vals : List ValidatorConfig)
      → All (IsFree (ini ++ (program path v ∷ []))) vals
      → All (IsFree ini) vals × IsNew v.moniker vals
  freed ini [] h = (tt, tt)
  freed ini (u ∷ vals) h =
      let rest = freed ini vals h.1 in
      let both =
        sym (has_section-append ini (program_name u.moniker) (program_name v.moniker) _) ∙ h.0 in
      (
        (ground (arith, both), rest.0),
        (
          (λ e.
              let same : eqb (program_name v.moniker) (program_name u.moniker) ≡ true =
                ap (λ m. eqb (program_name v.moniker) (program_name m)) (sym e)
                ∙ eqb_refl (program_name v.moniker) in
              ground (arith, both, same)),
          rest.1,
        ),
      )

  still-IsFree :
      (ini : Ini) (vals : List ValidatorConfig)
      → All (IsFree ini) vals
      → IsNew v.moniker vals
      → All (IsFree (ini ++ (program path v ∷ []))) vals
  still-IsFree ini [] h new = tt
  still-IsFree ini (u ∷ vals) h new =
      let other : eqb (program_name v.moniker) (program_name u.moniker) ≡ false =
        elim (Bool-cases (eqb v.moniker u.moniker)) [
          | inl e ↦ absurd (new.0 (eqb→eq v.moniker u.moniker e))
          | inr e ↦ program_name-eqb v.moniker u.moniker ∙ e
        ] in
      (
        has_section-append ini (program_name u.moniker) (program_name v.moniker) _
            ∙ ground (arith, h.0, other),
        still-IsFree ini vals h.1 new.1,
      )

module _ (c : DevnetConfig) (path : Str) (backend : Backend) (peers : List Str) where
  -- One script for each validator, in order, which runs its node.
  abbrev pub AllRun : ℕ → List ValidatorConfig → List (Str × Str) → Type 0
  AllRun index [] scripts = scripts ≡ []
  AllRun index (val ∷ vals) scripts =
      (script : Str) × (rest : List (Str × Str)) × (scripts ≡ (val.moniker, script) ∷ rest)
      × Runs script (validator_args c path backend peers index val)
      × AllRun (suc index) vals rest

  -- What the loop leaves in addition.
  abbrev pub Adds : ℕ → List ValidatorConfig → Written → Written → Type 0
  Adds index vals w w' =
      (w'.sections ≡ w.sections ++ map (program path) vals)
      × (scripts : List (Str × Str)) × (w'.scripts ≡ w.scripts ++ scripts)
      × AllRun index vals scripts

  taken :
      (index : ℕ) (v : ValidatorConfig) (vals : List ValidatorConfig) (w : Written)
      → has_section w.sections (program_name v.moniker) ≡ true
      → add_programs c path backend peers index (v ∷ vals) w ≡ err duplicate_section_error
  unfolding add_programs
  taken index v vals w e = rw e

  next : ValidatorConfig → Str → Written → Written
  next v script w = record {
    sections = w.sections ++ (program path v ∷ []);
    scripts = w.scripts ++ ((v.moniker, script) ∷ []);
    secrets = write_secret_file backend v.moniker w.secrets;
    reth = write_reth_config v.moniker c.patch_reth w.reth;
  }

  added :
      (index : ℕ) (v : ValidatorConfig) (vals : List ValidatorConfig) (w : Written) (script : Str)
      → has_section w.sections (program_name v.moniker) ≡ false
      → run_script_content (validator_args c path backend peers index v) [] false ≡ ok script
      → add_programs c path backend peers index (v ∷ vals) w
        ≡ add_programs c path backend peers (suc index) vals (next v script w)
  unfolding add_programs next
  added index v vals w script e f = rw (e, f) refl

  Adds-next :
      (index : ℕ) (v : ValidatorConfig) (vals : List ValidatorConfig) (w w' : Written)
      (script : Str)
      → Runs script (validator_args c path backend peers index v)
      → Adds (suc index) vals (next v script w) w'
      → Adds index (v ∷ vals) w w'
  unfolding next
  Adds-next index v vals w w' script runs (sections, scripts, e, all) = (
    sections ∙ append_assoc w.sections (program path v ∷ []) _,
    (v.moniker, script) ∷ scripts,
    e ∙ append_assoc w.scripts ((v.moniker, script) ∷ []) scripts,
    (script, scripts, refl, runs, all),
  )

  pub add_programs-cases :
      (index : ℕ) (vals : List ValidatorConfig) (w : Written)
      → ((All (IsFree w.sections) vals × AllNew vals)
          × (w' : Written) × (add_programs c path backend peers index vals w ≡ ok w')
          × Adds index vals w w')
        ⊎ ((¬ (All (IsFree w.sections) vals × AllNew vals))
            × (add_programs c path backend peers index vals w ≡ err duplicate_section_error))
  add_programs-cases index [] w = inl (
    (tt, tt),
    w,
    unfold add_programs in refl,
    (sym (append-nil w.sections), [], sym (append-nil w.scripts), refl),
  )
  add_programs-cases index (v ∷ vals) w =
      elim (Bool-cases (has_section w.sections (program_name v.moniker))) [
        | inl e ↦ inr ((λ h. ground (arith, e, h.0.0)), taken index v vals w e)
        | inr e ↦
            let (script, f, runs) = validator_script c path backend peers index v in
            elim (add_programs-cases (suc index) vals (next v script w)) [
              | inl (free, w', done, adds) ↦
                  let (old, new) = freed path v w.sections vals (unfold next in free.0) in
                  inl (
                    ((e, old), (new, free.1)),
                    w',
                    added index v vals w script e f ∙ done,
                    Adds-next index v vals w w' script runs adds,
                  )
              | inr (clash, failed) ↦ inr (
                (λ h.
                    clash
                      (unfold next in (still-IsFree path v w.sections vals h.0.1 h.1.0, h.1.1))),
                added index v vals w script e f ∙ failed,
              )
            ]
      ]
