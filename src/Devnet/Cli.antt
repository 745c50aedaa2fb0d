-- ===== src/Devnet/Cli.antt =====
-- tempo/devnet/cli.py: the configuration of `init` with the overrides of its caller, its checks, and
-- what a data directory holds. What is printed is left out.
pub mod Monikers
pub mod Init
pub mod Ready
use tempo_py.Prelude.{
  attribute_error, set, ℕ, Bool, true, false, not, ◌&&◌, ◌||◌, if◌then◌else◌, List, [], ◌∷◌, ◌++◌,
  Option, none, some, Exception, Result, ok, err, runtime_error, system_exit, ◌>>=◌, ◌>>◌, require,
}
use tempo_py.Python.Bytes.{Str, codes, eqb}
use tempo_py.Devnet.Yaml.{Entries}
use tempo_py.Devnet.DevnetConfig.{
  DevnetData, DevnetConfig, NetworkDict, Topology, single, two_network, new_devnet,
}
use tempo_py.Devnet.Config.{ValidatorConfig, FollowNodeConfig, P2pProxyConfig, PublicNodeConfig}
use tempo_py.Devnet.DevnetConfig.ToDict.{devnet_to_dict}
use tempo_py.Devnet.DevnetConfig.Genesis.{Ipaddress, docker_validators_arg}
use tempo_py.Devnet.Backends.{Backend, tempo, allegro, get_backend}
use tempo_py.Devnet.Backends.Localnet.{DataDir, Generator, generate_localnet}
use tempo_py.Devnet.Docker.Commands.{Enodes}
use tempo_py.Devnet.Docker.Compose.{DockerFiles, generate_docker_compose}
use tempo_py.Devnet.Supervisor.{Files, generate_supervisor_config}

-- A keyword argument beside the named ones: a name that the configuration does not have, a value of
-- None, or a value for one of its attributes, of the type that the attribute is declared with. For a
-- read-only property the flag tells whether the value is other than None. `_source` is an attribute
-- that nothing reads. The methods of the class, which are attributes as well, are not taken as names.
pub data Override : Type 0 where
  unknown without_value : Override
  set_chain_id set_accounts set_epoch_length set_gas_limit set_seed : ℕ → Override
  set_source set_mnemonic set_backend set_tempo_bin set_tempo_xtask_bin : Str → Override
  set_no_dkg_in_genesis set_no_extra_tokens set_no_pairwise_liquidity : Bool → Override
  set_hardfork : ℕ → ℕ → Override
  set_patch_genesis set_patch_reth : Entries → Override
  set_patch_node_flags set_patch_genesis_flags : List Str → Override
  set_docker_image set_docker_topology set_docker_network set_docker_subnet : Str → Override
  set_docker_validator_network set_docker_public_network : NetworkDict → Override
  set_docker_follow_nodes : List FollowNodeConfig → Override
  set_docker_p2p_proxies : List P2pProxyConfig → Override
  set_docker_public_nodes : List PublicNodeConfig → Override
  set_validators : List ValidatorConfig → Override
  set_validators_arg set_docker_validators_arg set_docker_is_two_network
        set_docker_public_network_name set_docker_public_subnet_cidr
        set_docker_validator_network_name :
      Bool → Override

-- The code tests the topology against "two-network" alone.
abbrev pub topology_of : Str → Topology
topology_of name = if eqb name (codes "two-network") then two_network else single

-- `setattr` on a property without a setter, which is not reached where the value is None.
abbrev pub set_property : Bool → DevnetConfig → Result DevnetConfig
set_property true c = err attribute_error
set_property false c = ok c

-- `if hasattr(cfg, k) and v is not None: setattr(cfg, k, v)`. The test of a property runs it, and
-- `docker_validators_arg` may raise; `set_hardfork i` sets the i-th of t0_time to t8_time.
unfoldable pub override : Ipaddress → DevnetConfig → Override → Result DevnetConfig
override ip c unknown = ok c
override ip c without_value = ok c
override ip c (set_chain_id n) = ok (record c { chain_id = n })
override ip c (set_accounts n) = ok (record c { accounts = n })
override ip c (set_epoch_length n) = ok (record c { epoch_length = n })
override ip c (set_gas_limit n) = ok (record c { gas_limit = n })
override ip c (set_seed n) = ok (record c { seed = some n })
override ip c (set_source s) = ok c
override ip c (set_mnemonic s) = ok (record c { mnemonic = s })
override ip c (set_backend s) = ok (record c { backend = s })
override ip c (set_tempo_bin s) = ok (record c { tempo_bin = s })
override ip c (set_tempo_xtask_bin s) = ok (record c { tempo_xtask_bin = s })
override ip c (set_no_dkg_in_genesis b) = ok (record c { no_dkg_in_genesis = b })
override ip c (set_no_extra_tokens b) = ok (record c { no_extra_tokens = b })
override ip c (set_no_pairwise_liquidity b) = ok (record c { no_pairwise_liquidity = b })
override ip c (set_hardfork i n) = ok (record c { hardforks = set c.hardforks i n })
override ip c (set_patch_genesis e) = ok (record c { patch_genesis = e })
override ip c (set_patch_reth e) = ok (record c { patch_reth = e })
override ip c (set_patch_node_flags l) = ok (record c { patch_node_flags = l })
override ip c (set_patch_genesis_flags l) = ok (record c { patch_genesis_flags = l })
override ip c (set_docker_image s) = ok (record c { docker = record c.docker { image = s } })
override ip c (set_docker_topology s) =
    ok (record c { docker = record c.docker { topology = topology_of s } })
override ip c (set_docker_network s) = ok (record c { docker = record c.docker { network = s } })
override ip c (set_docker_subnet s) = ok (record c { docker = record c.docker { subnet = s } })
override ip c (set_docker_validator_network d) =
    ok (record c { docker = record c.docker { validator_network = d } })
override ip c (set_docker_public_network d) =
    ok (record c { docker = record c.docker { public_network = d } })
override ip c (set_docker_follow_nodes l) =
    ok (record c { docker = record c.docker { follow_nodes = l } })
override ip c (set_docker_p2p_proxies l) =
    ok (record c { docker = record c.docker { p2p_proxies = l } })
override ip c (set_docker_public_nodes l) =
    ok (record c { docker = record c.docker { public_nodes = l } })
override ip c (set_validators l) = ok (record c { validators = l })
override ip c (set_validators_arg given) = set_property given c
override ip c (set_docker_validators_arg given) =
    docker_validators_arg ip c >>= λ arg. set_property given c
override ip c (set_docker_is_two_network given) = set_property given c
override ip c (set_docker_public_network_name given) = set_property given c
override ip c (set_docker_public_subnet_cidr given) = set_property given c
override ip c (set_docker_validator_network_name given) = set_property given c

-- `for k, v in kwargs.items()`
abbrev pub overridden : Ipaddress → DevnetConfig → List Override → Result DevnetConfig
overridden ip c [] = ok c
overridden ip c (o ∷ os) = override ip c o >>= λ after. overridden ip after os

-- What the commands find outside of the package: the directories of PATH, `os.path.join`, whether a
-- path is a file that may be executed, and the Python executable.
pub record Host : Type 0 where
  pub search_path : List Str
  pub join_path : Str → Str → Str
  pub is_executable : Str → Bool
  pub executable : Str

-- `_cmd_exists`
unfoldable pub cmd_exists : Host → List Str → Str → Bool
cmd_exists host [] name = false
cmd_exists host (dir_path ∷ dirs) name =
    host.is_executable (host.join_path dir_path name) || cmd_exists host dirs name

-- `_ensure_tempo_bins`
unfoldable pub ensure_tempo_bins : Host → DevnetConfig → Bool → Result (Unit {0})
unfolding cmd_exists
ensure_tempo_bins host c require_node_bin =
    let xtask = cmd_exists host host.search_path c.tempo_xtask_bin in
    let node = cmd_exists host host.search_path c.tempo_bin in
    require (xtask && (not require_node_bin || node)) system_exit

-- The data directory: what the generator makes, and the files that `init` writes.
pub record Home {ℓ} (D G : Type ℓ) : Type ℓ where
  pub layout : DataDir D
  pub saved : Option DevnetData
  pub files : Files G
  pub docker : DockerFiles

abbrev pub is_tempo : Backend → Bool
is_tempo tempo = true
is_tempo allegro = false

-- `except RuntimeError: sys.exit(1)`
abbrev pub exit_on_runtime_error {ℓ} : {A : Type ℓ} → Result A → Result A
exit_on_runtime_error (ok a) = ok a
exit_on_runtime_error (err runtime_error) = err system_exit
exit_on_runtime_error (err e) = err e

-- The configuration of `init`, and the checks before the data directory is looked at.
unfoldable pub checks :
    Host → Ipaddress → Result DevnetData → Bool → List Override → Result DevnetConfig
unfolding ensure_tempo_bins
checks host ip loaded gen_compose_file overrides = do
  d ← loaded
  c ← new_devnet d
  cfg ← overridden ip c overrides
  backend ← get_backend cfg.backend
  require (not gen_compose_file || is_tempo backend) system_exit
  ensure_tempo_bins host cfg (not gen_compose_file)
  ok cfg

-- The genesis.json that the generator left, and the identities in the directories of the nodes.
pub record Reader {ℓ} (D G : Type ℓ) : Type ℓ where
  pub genesis_of : DataDir D → Option G
  pub enodes_of : DataDir D → Enodes

-- A new data directory, and what is in it beside the generator's work.
abbrev pub new_dir {ℓ} : {D : Type ℓ} → DataDir D
new_dir = record { dirs = λ name. none; genesis = false }

abbrev pub new_files {ℓ} : {G : Type ℓ} → Option G → Files G
new_files genesis = record {
  genesis = genesis;
  copies = [];
  ini = none;
  scripts = [];
  secrets = [];
  reth = [];
}

abbrev pub no_docker : DockerFiles
no_docker = record { compose = none; scripts = [] }

-- `cfg.docker_validators_arg if gen_compose_file else None`
abbrev pub genesis_validators : Ipaddress → DevnetConfig → Bool → Result (Option Str)
genesis_validators ip cfg true = docker_validators_arg ip cfg >>= λ arg. ok (some arg)
genesis_validators ip cfg false = ok none
