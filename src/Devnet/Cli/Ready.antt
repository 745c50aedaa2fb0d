-- ===== src/Devnet/Cli/Ready.antt =====
-- `init` keeps an existing data directory, and what it leaves can be started.
use tempo_py.Prelude.{
  ◌≡◌, refl, ap, ◌∙◌, Bool, true, false, not, inl, inr, ◌||◌, List, [], ◌∷◌, none, some, Exception,
  Result, ok, err, system_exit,
}
use tempo_py.Python.Bytes.{Str, codes}
use tempo_py.Devnet.Yaml.{Entries}
use tempo_py.Devnet.DevnetConfig.{DevnetData, DevnetConfig, new_devnet}
use tempo_py.Devnet.DevnetConfig.ToDict.{devnet_to_dict}
use tempo_py.Devnet.DevnetConfig.Genesis.{Ipaddress}
use tempo_py.Devnet.Backends.{tempo, get_backend, localnet_args}
use tempo_py.Devnet.Backends.Localnet.{
  DataDir, Generator, layout_pairs, generate_localnet-arranged, get_backend-tempo,
}
use tempo_py.Devnet.Layout.Moves.{AllApart, arranged}
use tempo_py.Devnet.Supervisor.Configured.{IsConfigured, generate_supervisor_config-IsConfigured}
use tempo_py.Devnet.Supervisor.Programs.{AllNew}
use tempo_py.Devnet.Supervisor.{Files, Ini, generate_supervisor_config}
use tempo_py.Devnet.Cli.{
  Host, Override, Home, Reader, checks, cmd_exists, ensure_tempo_bins, no_docker, overridden,
  new_dir, new_files,
}
use tempo_py.Devnet.Cli.Init.{
  Machine, absent, holding, unfinished, data_dir_exists, proceed, ◌>>=◌, empty_home, rmtree, mkdir,
  prepare, fill, init, tasks_ini, start, after_init, serve,
}
use tempo_py.Devnet.Cli.Monikers.{layout_pairs-AllNew}

module _ {ℓ} {D G : Type ℓ} (host : Host) (ip : Ipaddress) (generator : Generator D)
    (reader : Reader D G) (merge : G → Entries → G) where
  prepare_refuses :
      (machine : Machine (Home D G))
      → data_dir_exists machine ≡ true
      → prepare false machine ≡ (err system_exit, machine)
  unfolding prepare
  prepare_refuses machine there = rw there

  -- Without `force`, `init` leaves a machine that has the data directory as it was: whatever the
  -- configuration, the overrides of its attributes and the other arguments are, it ends with an exception, and the
  -- machine after it is the machine before it.
  pub init-refused :
      (loaded : Result DevnetData) (path : Str) (compose : Bool) (overrides : List Override)
      (machine : Machine (Home D G))
      → data_dir_exists machine ≡ true
      → (e : Exception) × (init host ip generator reader merge loaded path false compose overrides
            machine
          ≡ (err e, machine))
  unfolding init
  init-refused loaded path compose overrides machine there =
      go (checks host ip loaded compose overrides)
    where
      go :
          (checked : Result DevnetConfig)
          → (e : Exception) × (proceed
                (λ cfg. prepare false >>= fill host ip generator reader merge cfg path compose)
                (checked, machine)
              ≡ (err e, machine))
      go (err e) = (e, refl)
      go (ok cfg) = (system_exit, rw (prepare_refuses machine there) refl)

  -- What `init` leaves: every directory of the generator at its place, the configuration as it is
  -- saved, supervisord.ini with its programs and their scripts, and a daemon that can be started.
  pub record Starts (cfg : DevnetConfig) (path : Str) (made : DataDir D) (pairs : List (Str × Str))
      (outcome : Result (Unit {0}) × Machine (Home D G)) (served : Result (List Str)) : Type ℓ where
    pub home : Home D G
    pub returned : outcome ≡ (ok tt, holding home)
    pub placed : (name : Str) → home.layout.dirs name ≡ arranged made.dirs pairs name
    pub saved : home.saved ≡ some (devnet_to_dict cfg)
    pub configured :
        IsConfigured merge cfg
          (reader.enodes_of home.layout)
          path
          tempo
          (new_files (reader.genesis_of home.layout))
          home.files
    pub started :
        served
        ≡ ok (
            host.executable
            ∷ codes "-m"
            ∷ codes "supervisor.supervisord"
            ∷ codes "-c"
            ∷ host.join_path path (codes "supervisord.ini")
            ∷ [])

  checks_passed :
      (d : DevnetData) (c cfg : DevnetConfig) (overrides : List Override)
      → new_devnet d ≡ ok c
      → overridden ip c overrides ≡ ok cfg
      → get_backend cfg.backend ≡ ok tempo
      → cmd_exists host host.search_path cfg.tempo_xtask_bin ≡ true
      → cmd_exists host host.search_path cfg.tempo_bin ≡ true
      → checks host ip (ok d) false overrides ≡ ok cfg
  unfolding checks ensure_tempo_bins
  checks_passed d c cfg overrides e o b xtask node = rw (e, o, b, xtask, node) refl

  new_supervisor_config_lem :
      (cfg : DevnetConfig) (path : Str) (layout : DataDir D)
      → get_backend cfg.backend ≡ ok tempo
      → AllNew cfg.validators
      → (out : Files G) × (generate_supervisor_config merge cfg
            (reader.enodes_of layout)
            path
            true
            (new_files (reader.genesis_of layout))
          ≡ ok out)
        × IsConfigured merge cfg
            (reader.enodes_of layout)
            path
            tempo
            (new_files (reader.genesis_of layout))
            out
  new_supervisor_config_lem cfg path layout b new =
      elim (generate_supervisor_config-IsConfigured merge cfg (reader.enodes_of layout) path true
        (new_files (reader.genesis_of layout)) tempo b refl) [
          | inl (also, out, done, all) ↦ (out, done, all)
          | inr (clash, failed) ↦ absurd (clash new)
        ]

  start_lem :
      (path : Str) (home : Home D G) (ini : Ini)
      → home.files.ini ≡ some ini
      → start host path (holding home)
        ≡ ok (
            host.executable
            ∷ codes "-m"
            ∷ codes "supervisor.supervisord"
            ∷ codes "-c"
            ∷ host.join_path path (codes "supervisord.ini")
            ∷ [])
  unfolding start tasks_ini
  start_lem path home ini e = rw e refl

  prepare_makes :
      (force : Bool) (machine : Machine (Home D G))
      → (not (data_dir_exists machine) || force) ≡ true
      → prepare force machine ≡ (ok empty_home, holding empty_home)
  unfolding prepare rmtree mkdir
  prepare_makes force absent free = refl
  prepare_makes true (holding home) free = refl
  prepare_makes true (unfinished ini) free = refl
  prepare_makes false (holding home) free = cc
  prepare_makes false (unfinished ini) free = cc

  -- For a configuration of the backend tempo that the overrides make without an exception, whose
  -- binaries are on the PATH, where the data directory is new or `force` is given, the generator
  -- succeeds and writes a genesis.json, no two validators share an address or a moniker: `init`
  -- without a Compose file returns. Then every directory that the generator made is where the
  -- layout's description says, what is saved is what `to_dict` writes of the overridden configuration
  -- (which leaves out the names of the two binaries), supervisord.ini and the scripts are those of its
  -- validators, and `serve` goes on to run supervisord on that file.
  pub init-Starts :
      (d : DevnetData) (c cfg : DevnetConfig) (path : Str) (overrides : List Override)
      (force : Bool) (machine : Machine (Home D G)) (made : DataDir D) (pairs : List (Str × Str))
      → new_devnet d ≡ ok c
      → overridden ip c overrides ≡ ok cfg
      → cfg.backend ≡ codes "tempo"
      → cmd_exists host host.search_path cfg.tempo_xtask_bin ≡ true
      → cmd_exists host host.search_path cfg.tempo_bin ≡ true
      → (not (data_dir_exists machine) || force) ≡ true
      → generator.run (localnet_args tempo cfg path none) new_dir ≡ (0, made)
      → made.genesis ≡ true
      → layout_pairs ip cfg false 0 cfg.validators ≡ ok pairs
      → AllApart pairs
      → Starts cfg path made pairs
          (init host ip generator reader merge (ok d) path force false overrides machine)
          (serve host ip generator reader merge (ok d) path force false overrides machine)
  unfolding serve
  init-Starts d c cfg path overrides force machine made pairs e o bk xtask node free ran gen paired
        apart =
      let b = ap get_backend bk ∙ get_backend-tempo in
      let (layout, arranged_ok, _, placed) =
        generate_localnet-arranged ip generator cfg path none false new_dir made pairs bk ran gen
          paired apart in
      let (out, done, all) =
        new_supervisor_config_lem cfg path layout b
          (layout_pairs-AllNew ip cfg false 0 cfg.validators pairs paired apart) in
      let home : Home D G = record {
        layout = layout;
        saved = some (devnet_to_dict cfg);
        files = out;
        docker = no_docker;
      } in
      let filled : fill host ip generator reader merge cfg path false empty_home
            (holding empty_home)
          ≡ (ok tt, holding home) =
        rw (fill, arranged_ok, done) refl in
      let begun : init host ip generator reader merge (ok d) path force false overrides machine
          ≡ (ok tt, holding home) =
        rw
          (init, checks_passed d c cfg overrides e o b xtask node, prepare_makes force machine free)
          filled in
      record {
        home = home;
        returned = begun;
        placed = placed;
        saved = refl;
        configured = all;
        started = ap (after_init host path) begun ∙ start_lem path home _ all.0;
      }
