-- ===== src/Samples/Localnet.antt =====
-- The directories of two validators, the configuration that names them, and a wrapper script.
use tempo_py.Prelude.{
  ℕ, ◌≡◌, refl, true, false, if◌then◌else◌, List, [], ◌∷◌, ◌++◌, Option, none, some, ok,
}
use tempo_py.Python.Bytes.{eqb-ne, Str, codes, eqb}
use tempo_py.Python.Text.{join}
use tempo_py.Devnet.Yaml.{empty, mapping_of, flags, strings, items, cons, nil, text}
use tempo_py.Devnet.Config.{
  ValidatorConfig, validator_from_dict, new_validator, name_or_default, follow_from_dict,
  proxy_from_dict, public_from_dict, required,
}
use tempo_py.Devnet.DevnetConfig.{
  DevnetData, DevnetConfig, NetworkDict, section, two_network, new_devnet, init_docker,
  two_network_docker, single_docker, network_or, default_bin, default_xtask, raw_validators,
  default_mnemonic, default_public_network, default_public_subnet,
}
use tempo_py.Devnet.DevnetConfig.ToDict.{devnet_to_dict}
use tempo_py.Devnet.DevnetConfig.RoundTrip.{normalised, new_devnet-devnet_to_dict}
use tempo_py.Devnet.DevnetConfig.Genesis.{Ipaddress}
use tempo_py.Devnet.Layout.{Dirs}
use tempo_py.Devnet.Layout.Moves.{AllApart}
use tempo_py.Devnet.Backends.Localnet.{DataDir, Generator}
use tempo_py.Devnet.Shell.{newline, preamble, run_script_content}
use tempo_py.Devnet.Shell.Words.{scan, plain}
use tempo_py.Devnet.Shell.Laws.{scan-run_script_content}

-- An argument with an apostrophe, and one with a space and a dollar.
scan-run_script_content_example :
    (command : Str) × (run_script_content
        (codes "/bin/tempo" ∷ codes "it's" ∷ codes "a $b" ∷ [])
        (codes "docker")
        true
      ≡ ok (join newline (preamble (codes "docker") true) ++ (newline ++ command)))
    × (scan plain none command
        ≡ some (codes "exec" ∷ codes "/bin/tempo" ∷ codes "it's" ∷ codes "a $b" ∷ [], []))
scan-run_script_content_example =
    scan-run_script_content (codes "/bin/tempo") (codes "it's" ∷ codes "a $b" ∷ []) (codes "docker")
      true

abbrev left_out : ℕ → List (Option ℕ)
left_out n = none ∷ none ∷ some n ∷ none ∷ none ∷ none ∷ none ∷ none ∷ none ∷ []

abbrev public_net : NetworkDict
public_net = record {
  name = some default_public_network;
  subnet = some default_public_subnet;
  has_other = false;
}

abbrev pub devnet_data : DevnetData
devnet_data = record {
  chain_id = none;
  accounts = some 5;
  epoch_length = none;
  gas_limit = none;
  seed = some 7;
  mnemonic = none;
  backend = none;
  tempo_bin = some (codes "/opt/tempo");
  tempo_xtask_bin = none;
  no_dkg_in_genesis = some true;
  no_extra_tokens = none;
  no_pairwise_liquidity = none;
  hardforks = left_out 12;
  patch_genesis = none;
  patch_reth = none;
  patch_node_flags = some (items (cons (text (codes "-v")) nil));
  patch_genesis_flags = none;
  docker = section (record {
    image = some (codes "tempo:test");
    network = none;
    subnet = none;
    validator_network = none;
    public_network = some none;
    follow_nodes = record { moniker = some (codes "f0"); port = none } ∷ [];
    p2p_proxies = [];
    public_nodes = record { moniker = some (codes "p0"); port = some 6100 } ∷ [];
  });
  validators =
      record {
        host = some (codes "10.0.0.1");
        port = some 8000;
        moniker = none;
        base_port = none;
        p2p_host = none;
        rpc_host = none;
      }
      ∷ record {
        host = some (codes "10.0.0.2");
        port = some 8010;
        moniker = none;
        base_port = none;
        p2p_host = none;
        rpc_host = none;
      }
      ∷ [];
}

abbrev validator : Str → ℕ → Str → ValidatorConfig
validator host port moniker = record {
  host = host;
  port = port;
  moniker = moniker;
  base_port = port;
  p2p_host = host;
  rpc_host = codes "0.0.0.0";
}

abbrev pub config : DevnetConfig
config = record {
  chain_id = 1337;
  accounts = 5;
  epoch_length = 100;
  gas_limit = 500_000_000;
  seed = some 7;
  mnemonic = default_mnemonic;
  backend = codes "tempo";
  tempo_bin = codes "/opt/tempo";
  tempo_xtask_bin = codes "tempo-xtask";
  no_dkg_in_genesis = true;
  no_extra_tokens = false;
  no_pairwise_liquidity = false;
  hardforks = 0 ∷ 0 ∷ 12 ∷ 0 ∷ 0 ∷ 0 ∷ 0 ∷ 0 ∷ 0 ∷ [];
  patch_genesis = empty;
  patch_reth = empty;
  patch_node_flags = codes "-v" ∷ [];
  patch_genesis_flags = [];
  docker = record {
    image = codes "tempo:test";
    topology = two_network;
    network = codes "tempo-devnet";
    subnet = codes "10.88.0.0/24";
    validator_network = record {
      name = some (codes "tempo-devnet");
      subnet = some (codes "10.88.0.0/24");
      has_other = false;
    };
    public_network = public_net;
    follow_nodes = record { moniker = codes "f0"; port = 9000 } ∷ [];
    p2p_proxies = [];
    public_nodes = record { moniker = codes "p0"; port = 6100 } ∷ [];
  };
  validators =
      validator (codes "10.0.0.1") 8000 (codes "node0")
      ∷ validator (codes "10.0.0.2") 8010 (codes "node1")
      ∷ [];
}

pub read : new_devnet devnet_data ≡ ok config
unfolding new_devnet mapping_of flags strings init_docker two_network_docker single_docker
    network_or follow_from_dict proxy_from_dict public_from_dict required raw_validators
    validator_from_dict new_validator name_or_default default_bin default_xtask eqb
read = refl

new_devnet-devnet_to_dict_example : new_devnet (devnet_to_dict config) ≡ ok (normalised config)
new_devnet-devnet_to_dict_example = new_devnet-devnet_to_dict devnet_data config read

-- A generator that leaves a directory for each socket, and one under a moniker.
abbrev pub sockets : Dirs ℕ
sockets name =
    if eqb name (codes "10.0.0.1:8000")
    then some 1
    else if eqb name (codes "10.0.0.2:8010")
    then some 2
    else if eqb name (codes "node1")
    then some 3
    else none

abbrev pub pairs : List (Str × Str)
pairs = (codes "10.0.0.1:8000", codes "node0") ∷ (codes "10.0.0.2:8010", codes "node1") ∷ []

pub pairs-AllApart : AllApart pairs
unfolding eqb
pairs-AllApart =
    (((eqb-ne _ _ refl, eqb-ne _ _ refl, eqb-ne _ _ refl, eqb-ne _ _ refl), tt), (tt, tt))

abbrev pub made : DataDir ℕ
made = record { dirs = sockets; genesis = true }

abbrev pub generator : Generator ℕ
generator = record { empty = 0; is_empty = λ d. false; run = λ args before. (0, made) }

abbrev pub ip : Ipaddress
ip = record { address = λ subnet n. ok (n ∷ subnet) }
