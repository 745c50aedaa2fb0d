-- ===== src/Devnet/Supervisor.antt =====
-- `generate_supervisor_config` of tempo/devnet/supervisor.py. The validators' directories are there,
-- under the absolute path of the data directory; a file that is written is in the list of its kind
-- by the name of its directory. What a call wrote before it raised is not described.
pub mod Scripts
pub mod Programs
pub mod Configured
use tempo_py.Prelude.{
  ℕ, suc, Bool, true, false, not, ◌||◌, ◌&&◌, if◌then◌else◌, List, [], ◌∷◌, ◌++◌, map, Option, none,
  some, Result, ok, err, ◌>>=◌, ◌>>◌, require, duplicate_section_error,
}
use tempo_py.Python.Bytes.{Str, codes, eqb}
use tempo_py.Devnet.Yaml.{Entries, empty, entry}
use tempo_py.Devnet.Config.{ValidatorConfig}
use tempo_py.Devnet.DevnetConfig.{DevnetConfig}
use tempo_py.Devnet.Backends.{Backend, tempo, allegro, get_backend, NodeContext, node_args}
use tempo_py.Devnet.Shell.{run_script_content}
use tempo_py.Devnet.Docker.Commands.{Enodes, trusted_peers}

-- The sections with their options, as RawConfigParser keeps them.
abbrev pub Ini : Type 0
Ini = List (Str × List (Str × Str))

abbrev pub has_section : Ini → Str → Bool
has_section [] name = false
has_section (s ∷ ini) name = eqb s.0 name || has_section ini name

-- `{data_dir}/{name}`
abbrev pub child : Str → Str → Str
child path name = path ++ (codes "/" ++ name)

abbrev pub program_name : Str → Str
program_name moniker = codes "program:" ++ moniker

-- The sections in front of the programs.
unfoldable pub base_sections : Str → Ini
base_sections path =
    (
      codes "supervisord",
      (codes "pidfile", child path (codes "supervisord.pid"))
          ∷ (codes "nodaemon", codes "true")
          ∷ (codes "logfile", child path (codes "supervisord.log"))
          ∷ (codes "logfile_maxbytes", codes "0")
          ∷ (codes "strip_ansi", codes "true")
          ∷ [],
    )
    ∷ (
      codes "rpcinterface:supervisor",
      (
        codes "supervisor.rpcinterface_factory",
        codes "supervisor.rpcinterface:make_main_rpcinterface",
      )
          ∷ [],
    )
    ∷ (codes "unix_http_server", (codes "file", child path (codes "supervisor.sock")) ∷ [])
    ∷ (
      codes "supervisorctl",
      (codes "serverurl", codes "unix://" ++ child path (codes "supervisor.sock")) ∷ [],
    )
    ∷ []

-- The options of a program: `COMMON_PROG_OPTIONS` and its own.
unfoldable pub program_options : Str → Str → List (Str × Str)
program_options path moniker =
    (codes "autostart", codes "true")
    ∷ (codes "autorestart", codes "true")
    ∷ (codes "redirect_stderr", codes "true")
    ∷ (codes "startsecs", codes "3")
    ∷ (codes "stopwaitsecs", codes "10")
    ∷ (codes "directory", child path moniker)
    ∷ (codes "command", child (child path moniker) (codes "run.sh"))
    ∷ (codes "stdout_logfile", child (child path moniker) (codes "node.log"))
    ∷ []

-- What the loop over the validators has done.
pub record Written : Type 0 where
  pub sections : Ini
  pub scripts : List (Str × Str)
  pub secrets : List Str
  pub reth : List (Str × Entries)

-- `write_reth_config`
abbrev pub write_reth_config : Str → Entries → List (Str × Entries) → List (Str × Entries)
write_reth_config moniker empty files = files
write_reth_config moniker (entry k v es) files = files ++ ((moniker, entry k v es) ∷ [])

-- `write_secret_file`, which only one backend calls.
abbrev pub write_secret_file : Backend → Str → List Str → List Str
write_secret_file tempo moniker files = files ++ (moniker ∷ [])
write_secret_file allegro moniker files = files

module _ (c : DevnetConfig) (path : Str) (backend : Backend) (peers : List Str) where
  -- The arguments of the node.
  abbrev pub validator_args : ℕ → ValidatorConfig → List Str
  validator_args index val = node_args backend c val index (record {
    genesis_path = codes "./genesis.json";
    datadir = codes ".";
    trusted_peers = peers;
    extra_flags = c.patch_node_flags;
  })

  -- The loop over the validators, from number `index` on.
  unfoldable pub add_programs : ℕ → List ValidatorConfig → Written → Result Written
  add_programs index [] w = ok w
  add_programs index (val ∷ vals) w = do
    require (not (has_section w.sections (program_name val.moniker))) duplicate_section_error
    script ← run_script_content (validator_args index val) [] false
    add_programs (suc index) vals (record {
      sections = w.sections ++ ((program_name val.moniker, program_options path val.moniker) ∷ []);
      scripts = w.scripts ++ ((val.moniker, script) ∷ []);
      secrets = write_secret_file backend val.moniker w.secrets;
      reth = write_reth_config val.moniker c.patch_reth w.reth;
    })

-- The data directory: genesis.json, its copies, supervisord.ini, and the files of the loop.
pub record Files {ℓ} (G : Type ℓ) : Type ℓ where
  pub genesis : Option G
  pub copies : List (Str × G)
  pub ini : Option Ini
  pub scripts : List (Str × Str)
  pub secrets : List Str
  pub reth : List (Str × Entries)

-- `dst.exists() and not force`
abbrev pub keeps_old : Option Ini → Bool → Bool
keeps_old none force = false
keeps_old (some ini) force = not force

module _ {ℓ} {G : Type ℓ} where
  -- `apply_genesis_patch`, where `merge` is that of the library jsonmerge.
  unfoldable pub apply_genesis_patch : (G → Entries → G) → Entries → Option G → Option G
  apply_genesis_patch merge empty genesis = genesis
  apply_genesis_patch merge (entry k v es) none = none
  apply_genesis_patch merge (entry k v es) (some g) = some (merge g (entry k v es))

  abbrev pub copy_genesis : Option G → List ValidatorConfig → List (Str × G)
  copy_genesis none vals = []
  copy_genesis (some g) vals = map (λ (v : ValidatorConfig). (v.moniker, g)) vals

  -- The part that an old supervisord.ini keeps_old.
  unfoldable pub write_config : DevnetConfig → Enodes → Str → Files G → Result (Files G)
  write_config c enodes path files = do
    backend ← get_backend c.backend
    w ← add_programs c path backend (trusted_peers enodes c.validators) 0 c.validators (record {
      sections = base_sections path;
      scripts = files.scripts;
      secrets = files.secrets;
      reth = files.reth;
    })
    ok (record files {
      ini = some w.sections;
      scripts = w.scripts;
      secrets = w.secrets;
      reth = w.reth;
    })

  -- The patched genesis and its copies.
  unfoldable pub patched : (G → Entries → G) → DevnetConfig → Files G → Files G
  patched merge c files =
      let genesis = apply_genesis_patch merge c.patch_genesis files.genesis in
      record files { genesis = genesis; copies = files.copies ++ copy_genesis genesis c.validators }

  -- `generate_supervisor_config`
  unfoldable pub generate_supervisor_config :
      (G → Entries → G) → DevnetConfig → Enodes → Str → Bool → Files G → Result (Files G)
  generate_supervisor_config merge c enodes path force files =
      let written = write_config c enodes path (patched merge c files) in
      if keeps_old files.ini force then ok (patched merge c files) else written
