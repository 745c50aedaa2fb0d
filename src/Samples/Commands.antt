-- ===== src/Samples/Commands.antt =====
-- The command line on a machine without a data directory, and on one that has it.
use tempo_py.Prelude.{ℕ, ◌≡◌, refl, false, true, [], ◌∷◌, ◌++◌, none, some, Exception, ok, err, set}
use tempo_py.Python.Bytes.{Str, codes}
use tempo_py.Python.Text.{decimal, decimal_fuel}
use tempo_py.Devnet.Config.{validator_arg}
use tempo_py.Devnet.DevnetConfig.{DevnetConfig}
use tempo_py.Devnet.Backends.Localnet.{layout_pairs}
use tempo_py.Devnet.Cli.{
  Host, Home, Reader, set_chain_id, set_hardfork, override, cmd_exists, new_files, no_docker,
}
use tempo_py.Devnet.Cli.Init.{absent, holding, init, serve}
use tempo_py.Devnet.Cli.Ready.{init-refused, Starts, init-Starts}
use tempo_py.Samples.Localnet.{
  devnet_data, config, read, ip, generator, made, pairs, pairs-AllApart,
}

abbrev host : Host
host = record {
  search_path = codes "/usr/bin" ∷ [];
  join_path = λ dir_path name. dir_path ++ (codes "/" ++ name);
  is_executable = λ path. true;
  executable = codes "/usr/bin/python3";
}

abbrev reader : Reader ℕ ℕ
reader = record {
  genesis_of = λ layout. some 1;
  enodes_of = λ layout. record { identity = λ name. none; ensured = λ name. none };
}

-- With `--chain_id 99 --t1_time 7`
abbrev cfg : DevnetConfig
cfg = record config { chain_id = 99; hardforks = set config.hardforks 1 7 }

paired : layout_pairs ip cfg false 0 cfg.validators ≡ ok pairs
unfolding layout_pairs validator_arg decimal decimal_fuel
paired = refl

found : (name : Str) → cmd_exists host host.search_path name ≡ true
unfolding cmd_exists
found name = refl

init-Starts_example :
    Starts host ip generator reader
      (λ g p. g)
      cfg
      (codes "/data")
      made
      pairs
      (init host ip generator reader
        (λ g p. g)
        (ok devnet_data)
        (codes "/data")
        false
        false
        (set_chain_id 99 ∷ set_hardfork 1 7 ∷ [])
        absent)
      (serve host ip generator reader
        (λ g p. g)
        (ok devnet_data)
        (codes "/data")
        false
        false
        (set_chain_id 99 ∷ set_hardfork 1 7 ∷ [])
        absent)
init-Starts_example =
    init-Starts host ip generator reader (λ g p. g) devnet_data config cfg (codes "/data")
      (set_chain_id 99 ∷ set_hardfork 1 7 ∷ []) false absent made pairs read
      (unfold override in refl) refl (found _) (found _) refl refl refl paired pairs-AllApart

abbrev home : Home ℕ ℕ
home = record { layout = made; saved = none; files = new_files (some 1); docker = no_docker }

init-refused_example :
    (e : Exception) × (init host ip generator reader
        (λ g p. g)
        (ok devnet_data)
        (codes "/data")
        false
        true
        []
        (holding home)
      ≡ (err e, holding home))
init-refused_example =
    init-refused host ip generator reader (λ g p. g) (ok devnet_data) (codes "/data") true []
      (holding home) refl
