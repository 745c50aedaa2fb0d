-- ===== src/Devnet/Cli/Init.antt =====
-- `init`, `start`, `serve` and `supervisorctl` of tempo/devnet/cli.py, as steps on the machine: a call
-- comes to a result and to the machine that it leaves.
use tempo_py.Prelude.{
  Bool, true, false, if◌then◌else◌, List, [], ◌∷◌, none, some, Result, ok, err, system_exit,
}
use tempo_py.Python.Bytes.{Str, codes}
use tempo_py.Devnet.Yaml.{Entries}
use tempo_py.Devnet.DevnetConfig.{DevnetData, DevnetConfig}
use tempo_py.Devnet.DevnetConfig.ToDict.{devnet_to_dict}
use tempo_py.Devnet.DevnetConfig.Genesis.{Ipaddress}
use tempo_py.Devnet.Backends.Localnet.{Generator, generate_localnet}
use tempo_py.Devnet.Docker.Compose.{generate_docker_compose}
use tempo_py.Devnet.Supervisor.{generate_supervisor_config}
use tempo_py.Devnet.Cli.{
  Override, Host, Home, Reader, checks, exit_on_runtime_error, genesis_validators, new_dir,
  new_files, no_docker,
}

-- The data directory on the machine: it is not there; it is there with known contents; or a failed
-- `init` left it, with nothing known but whether supervisord.ini is there.
pub data Machine {ℓ} (H : Type ℓ) : Type ℓ where
  absent : Machine H
  holding : H → Machine H
  unfinished : Bool → Machine H

-- `data_dir.exists()`
abbrev pub data_dir_exists {ℓ} : {H : Type ℓ} → Machine H → Bool
data_dir_exists absent = false
data_dir_exists (holding home) = true
data_dir_exists (unfinished ini) = true

-- A call on the machine.
abbrev pub Step {ℓ κ} : Type ℓ → Type κ → Type (ℓ ⊔ κ)
Step H A = Machine H → Result A × Machine H

abbrev pub proceed {ℓ κ μ} :
    {H : Type ℓ} {A : Type κ} {B : Type μ}
    → (A → Step H B)
    → Result A × Machine H
    → Result B × Machine H
proceed next (err e, after) = (err e, after)
proceed next (ok a, after) = next a after

infixl 5 ◌>>=◌
abbrev pub ◌>>=◌ {ℓ κ μ} :
    {H : Type ℓ} {A : Type κ} {B : Type μ} → Step H A → (A → Step H B) → Step H B
◌>>=◌ first next machine = proceed next (first machine)

-- A call that changes nothing.
abbrev pub lift {ℓ κ} : {H : Type ℓ} {A : Type κ} → Result A → Step H A
lift result machine = (result, machine)

-- A call that leaves the machine `broken` where it fails.
abbrev pub leaving {ℓ κ} : {H : Type ℓ} {A : Type κ} → Machine H → Result A → Step H A
leaving broken (err e) machine = (err e, broken)
leaving broken (ok a) machine = (ok a, machine)

abbrev pub put {ℓ} : {H : Type ℓ} → Machine H → Step H (Unit {0})
put after machine = (ok tt, after)

module _ {ℓ} {D G : Type ℓ} where
  -- A new data directory.
  abbrev pub empty_home : Home D G
  empty_home = record { layout = new_dir; saved = none; files = new_files none; docker = no_docker }

  -- `shutil.rmtree(data_dir)`
  unfoldable pub rmtree : Step (Home D G) (Unit {0})
  rmtree machine = (ok tt, absent)

  -- `data_dir.mkdir(parents=True)`, and the directory that is made.
  unfoldable pub mkdir : Step (Home D G) (Home D G)
  mkdir machine = (ok empty_home, holding empty_home)

  -- The data directory is made, and an old one removed where `force` is given.
  unfoldable pub prepare : Bool → Step (Home D G) (Home D G)
  unfolding rmtree mkdir
  prepare force machine =
      if data_dir_exists machine
      then (if force then (rmtree >>= λ u. mkdir) machine else (err system_exit, machine))
      else mkdir machine

  module _ (host : Host) (ip : Ipaddress) (generator : Generator D) (reader : Reader D G)
      (merge : G → Entries → G) where
    -- The rest of `init`, in the directory that was made.
    unfoldable pub fill : DevnetConfig → Str → Bool → Home D G → Step (Home D G) (Unit {0})
    fill cfg path gen_compose_file home = do
      validators ← lift (genesis_validators ip cfg gen_compose_file)
      layout ← leaving (unfinished false) (
          exit_on_runtime_error
            (generate_localnet ip generator cfg path validators gen_compose_file home.layout))
      let enodes = reader.enodes_of layout
      files ← leaving (unfinished false) (
          generate_supervisor_config merge cfg enodes path true
            (record home.files { genesis = reader.genesis_of layout }))
      docker ← leaving (unfinished true) (
          if gen_compose_file
          then generate_docker_compose ip cfg enodes true home.docker
          else ok home.docker)
      put (
          holding (record {
            layout = layout;
            saved = some (devnet_to_dict cfg);
            files = files;
            docker = docker;
          }))

    -- `init`
    unfoldable pub init :
        Result DevnetData → Str → Bool → Bool → List Override → Step (Home D G) (Unit {0})
    unfolding checks prepare fill
    init loaded path force gen_compose_file overrides = do
      cfg ← lift (checks host ip loaded gen_compose_file overrides)
      home ← prepare force
      fill cfg path gen_compose_file home

  -- `data_dir / SUPERVISOR_CONFIG_FILE`, which has to be there.
  unfoldable pub tasks_ini : Host → Str → Machine (Home D G) → Result Str
  tasks_ini host path absent = err system_exit
  tasks_ini host path (unfinished false) = err system_exit
  tasks_ini host path (unfinished true) = ok (host.join_path path (codes "supervisord.ini"))
  tasks_ini host path (holding home) = elim home.files.ini [
    | none ↦ err system_exit
    | some ini ↦ ok (host.join_path path (codes "supervisord.ini"))
  ]

  -- `start`: the arguments of the process that replaces this one.
  unfoldable pub start : Host → Str → Machine (Home D G) → Result (List Str)
  unfolding tasks_ini
  start host path machine = elim (tasks_ini host path machine) [
    | err e ↦ err e
    | ok ini ↦
        ok (host.executable ∷ codes "-m" ∷ codes "supervisor.supervisord" ∷ codes "-c" ∷ ini ∷ [])
  ]

  -- `supervisorctl`: the arguments of `supervisorctl_main`.
  unfoldable pub supervisorctl : Host → List Str → Str → Machine (Home D G) → Result (List Str)
  unfolding tasks_ini
  supervisorctl host args path machine = elim (tasks_ini host path machine) [
    | err e ↦ err e
    | ok ini ↦ ok (codes "-c" ∷ ini ∷ args)
  ]

  -- What follows `init` in `CLI.serve`: `start`, where `init` returned.
  abbrev pub after_init : Host → Str → Result (Unit {0}) × Machine (Home D G) → Result (List Str)
  after_init host path (err e, machine) = err e
  after_init host path (ok u, machine) = start host path machine

  -- `CLI.serve`
  unfoldable pub serve :
      Host
      → Ipaddress
      → Generator D
      → Reader D G
      → (G → Entries → G)
      → Result DevnetData
      → Str
      → Bool
      → Bool
      → List Override
      → Machine (Home D G)
      → Result (List Str)
  unfolding init start
  serve host ip generator reader merge loaded path force gen_compose_file overrides machine =
      after_init host path
        (init host ip generator reader merge loaded path force gen_compose_file overrides machine)
