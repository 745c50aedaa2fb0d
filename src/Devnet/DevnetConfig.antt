-- ===== src/Devnet/DevnetConfig.antt =====
-- `DevnetConfig` of tempo/devnet/config.py: what it reads from the data of a YAML file, and the
-- data that it writes. Numbers are natural; `DevnetData` has the values of the keys that the class
-- reads, none where a key is missing.
pub mod ToDict
pub mod RoundTrip
pub mod Genesis
use tempo_py.Prelude.{
  ℕ, zero, suc, ◌+◌, ◌==◌, Bool, true, false, not, ◌&&◌, if◌then◌else◌, List, [], ◌∷◌, ◌++◌, map,
  Option, none, some, Result, ok, err, type_error, ◌>>=◌, traverse,
}
use tempo_py.Python.Bytes.{Str, codes, eqb}
use tempo_py.Devnet.Yaml.{Yaml, Entries, mapping_of, flags}
use tempo_py.Devnet.Config.{
  ValidatorConfig, ValidatorDict, validator_from_dict, validator_to_dict, FollowNodeConfig,
  P2pProxyConfig, PublicNodeConfig, NodeDict, follow_from_dict, follow_to_dict, proxy_from_dict,
  proxy_to_dict, public_from_dict, public_to_dict, or_default,
}

-- The dictionary of a network: its keys `name` and `subnet`, and whether it has another key.
pub record NetworkDict : Type 0 where
  pub name : Option Str
  pub subnet : Option Str
  pub has_other : Bool

-- The section `docker`. A network's key may be missing, or hold null.
pub record DockerDict : Type 0 where
  pub image : Option Str
  pub network : Option Str
  pub subnet : Option Str
  pub validator_network : Option (Option NetworkDict)
  pub public_network : Option (Option NetworkDict)
  pub follow_nodes : List NodeDict
  pub p2p_proxies : List NodeDict
  pub public_nodes : List NodeDict

-- Its value: missing or falsy, a mapping, or any other value.
pub data DockerValue : Type 0 where
  falsy : DockerValue
  section : DockerDict → DockerValue
  other : DockerValue

-- `hardforks` has the values of the keys t0_time to t8_time in order.
pub record DevnetData : Type 0 where
  pub chain_id : Option ℕ
  pub accounts : Option ℕ
  pub epoch_length : Option ℕ
  pub gas_limit : Option ℕ
  pub seed : Option ℕ
  pub mnemonic : Option Str
  pub backend : Option Str
  pub tempo_bin : Option Str
  pub tempo_xtask_bin : Option Str
  pub no_dkg_in_genesis : Option Bool
  pub no_extra_tokens : Option Bool
  pub no_pairwise_liquidity : Option Bool
  pub hardforks : List (Option ℕ)
  pub patch_genesis : Option Yaml
  pub patch_reth : Option Yaml
  pub patch_node_flags : Option Yaml
  pub patch_genesis_flags : Option Yaml
  pub docker : DockerValue
  pub validators : List ValidatorDict

pub data Topology : Type 0 where
  single two_network : Topology

-- The attributes `docker_…`.
pub record DockerConfig : Type 0 where
  pub image : Str
  pub topology : Topology
  pub network : Str
  pub subnet : Str
  pub validator_network : NetworkDict
  pub public_network : NetworkDict
  pub follow_nodes : List FollowNodeConfig
  pub p2p_proxies : List P2pProxyConfig
  pub public_nodes : List PublicNodeConfig

pub record DevnetConfig : Type 0 where
  pub chain_id : ℕ
  pub accounts : ℕ
  pub epoch_length : ℕ
  pub gas_limit : ℕ
  pub seed : Option ℕ
  pub mnemonic : Str
  pub backend : Str
  pub tempo_bin : Str
  pub tempo_xtask_bin : Str
  pub no_dkg_in_genesis : Bool
  pub no_extra_tokens : Bool
  pub no_pairwise_liquidity : Bool
  pub hardforks : List ℕ
  pub patch_genesis : Entries
  pub patch_reth : Entries
  pub patch_node_flags : List Str
  pub patch_genesis_flags : List Str
  pub docker : DockerConfig
  pub validators : List ValidatorConfig

abbrev pub default_backend : Str
default_backend = codes "tempo"

abbrev pub default_mnemonic : Str
default_mnemonic = codes "test test test test test test test test test test test junk"

abbrev pub default_subnet : Str
default_subnet = codes "10.88.0.0/24"

abbrev pub default_public_subnet : Str
default_public_subnet = codes "10.89.0.0/24"

abbrev pub default_public_network : Str
default_public_network = codes "tempo-public-net"

-- The names of the two binaries of a backend.
unfoldable pub default_bin : Str → Str
default_bin backend = if eqb backend default_backend then codes "tempo" else backend

unfoldable pub default_xtask : Str → Str
default_xtask backend =
    if eqb backend default_backend then codes "tempo-xtask" else backend ++ codes "-xtask"

abbrev pub no_network : NetworkDict
no_network = record { name = none; subnet = none; has_other = false }

-- `docker_raw.get(key) or default`
unfoldable pub network_or : Option (Option NetworkDict) → NetworkDict → NetworkDict
network_or none default = default
network_or (some none) default = default
network_or (some (some d)) default = elim (d.name) [
  | some n ↦ d
  | none ↦ elim (d.subnet) [ some s ↦ d | none ↦ if d.has_other then d else default ]
]

abbrev pub docker_section : DockerValue → Result DockerDict
docker_section falsy = ok (record {
  image = none;
  network = none;
  subnet = none;
  validator_network = none;
  public_network = none;
  follow_nodes = [];
  p2p_proxies = [];
  public_nodes = [];
})
docker_section (section d) = ok d
docker_section other = err type_error

-- `_init_docker_topology` without the keys of the two networks.
unfoldable pub single_docker : DockerDict → DockerConfig
single_docker d = record {
  image = or_default d.image (codes "ghcr.io/tempoxyz/tempo:latest");
  topology = single;
  network = or_default d.network (codes "tempo-devnet");
  subnet = or_default d.subnet default_subnet;
  validator_network = no_network;
  public_network = no_network;
  follow_nodes = [];
  p2p_proxies = [];
  public_nodes = [];
}

-- The rest of `_init_docker_topology`.
unfoldable pub two_network_docker : DockerDict → DockerConfig → Result DockerConfig
two_network_docker d base = do
  let validator_network : NetworkDict =
      network_or d.validator_network
        (record { name = some base.network; subnet = some base.subnet; has_other = false })
  follow_nodes ← traverse follow_from_dict d.follow_nodes
  p2p_proxies ← traverse proxy_from_dict d.p2p_proxies
  public_nodes ← traverse public_from_dict d.public_nodes
  ok (record base {
    topology = two_network;
    validator_network = validator_network;
    public_network = network_or d.public_network (record {
      name = some default_public_network;
      subnet = some default_public_subnet;
      has_other = false;
    });
    network = or_default validator_network.name (codes "tempo-validator-net");
    subnet = or_default validator_network.subnet default_subnet;
    follow_nodes = follow_nodes;
    p2p_proxies = p2p_proxies;
    public_nodes = public_nodes;
  })

unfoldable pub init_docker : DockerDict → Result DockerConfig
init_docker d = elim (d.validator_network) [
  | some v ↦ two_network_docker d (single_docker d)
  | none ↦ elim (d.public_network) [
    | some p ↦ two_network_docker d (single_docker d)
    | none ↦ ok (single_docker d)
  ]
]

-- The four validators of a configuration that names none.
abbrev default_validator : ℕ → Str → ValidatorDict
default_validator port moniker = record {
  host = some (codes "127.0.0.1");
  port = some port;
  moniker = some moniker;
  base_port = none;
  p2p_host = none;
  rpc_host = none;
}

unfoldable pub raw_validators : List ValidatorDict → List ValidatorDict
raw_validators [] =
    default_validator 8000 (codes "node0")
    ∷ default_validator 8010 (codes "node1")
    ∷ default_validator 8020 (codes "node2")
    ∷ default_validator 8030 (codes "node3")
    ∷ []
raw_validators (v ∷ vs) = v ∷ vs

-- `DevnetConfig.__init__`
unfoldable pub new_devnet : DevnetData → Result DevnetConfig
new_devnet d = do
  let backend = or_default d.backend default_backend
  patch_genesis ← mapping_of d.patch_genesis
  patch_reth ← mapping_of d.patch_reth
  patch_node_flags ← flags d.patch_node_flags
  patch_genesis_flags ← flags d.patch_genesis_flags
  docker_raw ← docker_section d.docker
  docker ← init_docker docker_raw
  ok (record {
    chain_id = or_default d.chain_id 1337;
    accounts = or_default d.accounts 10_000;
    epoch_length = or_default d.epoch_length 100;
    gas_limit = or_default d.gas_limit 500_000_000;
    seed = d.seed;
    mnemonic = or_default d.mnemonic default_mnemonic;
    backend = backend;
    tempo_bin = or_default d.tempo_bin (default_bin backend);
    tempo_xtask_bin = or_default d.tempo_xtask_bin (default_xtask backend);
    no_dkg_in_genesis = or_default d.no_dkg_in_genesis false;
    no_extra_tokens = or_default d.no_extra_tokens false;
    no_pairwise_liquidity = or_default d.no_pairwise_liquidity false;
    hardforks = map (λ o. or_default o 0) d.hardforks;
    patch_genesis = patch_genesis;
    patch_reth = patch_reth;
    patch_node_flags = patch_node_flags;
    patch_genesis_flags = patch_genesis_flags;
    docker = docker;
    validators = map validator_from_dict (raw_validators d.validators);
  })
