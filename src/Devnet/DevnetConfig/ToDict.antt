-- ===== src/Devnet/DevnetConfig/ToDict.antt =====
-- `DevnetConfig.to_dict`, and the properties that name the Docker networks.
use tempo_py.Prelude.{
  ℕ, ◌==◌, Bool, true, false, not, if◌then◌else◌, List, [], ◌∷◌, map, Option, none, some,
}
use tempo_py.Python.Bytes.{Str, eqb}
use tempo_py.Devnet.Yaml.{Yaml, items, mapping, Entries, empty, entry, texts}
use tempo_py.Devnet.Config.{
  validator_to_dict, follow_to_dict, proxy_to_dict, public_to_dict, or_default,
}
use tempo_py.Devnet.DevnetConfig.{
  DockerDict, section, DevnetData, single, two_network, DockerConfig, DevnetConfig, default_backend,
  default_public_network, default_public_subnet,
}

-- `docker_public_network_name`
unfoldable pub public_network_name : DockerConfig → Str
public_network_name d = or_default d.public_network.name default_public_network

-- `docker_public_subnet_cidr`
unfoldable pub public_subnet_cidr : DockerConfig → Str
public_subnet_cidr d = or_default d.public_network.subnet default_public_subnet

-- `docker_validator_network_name`
unfoldable pub validator_network_name : DockerConfig → Str
validator_network_name d = elim (d.topology) [
  | two_network ↦ or_default d.validator_network.name d.network
  | single ↦ d.network
]

-- The value of the key `docker`.
unfoldable pub docker_to_dict : DockerConfig → DockerDict
docker_to_dict d = elim (d.topology) [
  | two_network ↦ record {
    image = some d.image;
    network = none;
    subnet = none;
    validator_network = some (
        some (record {
          name = some (validator_network_name d);
          subnet = some d.subnet;
          has_other = false;
        }));
    public_network = some (
        some (record {
          name = some (public_network_name d);
          subnet = some (public_subnet_cidr d);
          has_other = false;
        }));
    follow_nodes = map follow_to_dict d.follow_nodes;
    p2p_proxies = map proxy_to_dict d.p2p_proxies;
    public_nodes = map public_to_dict d.public_nodes;
  }
  | single ↦ record {
    image = some d.image;
    network = some d.network;
    subnet = some d.subnet;
    validator_network = none;
    public_network = none;
    follow_nodes = [];
    p2p_proxies = [];
    public_nodes = [];
  }
]

-- A key that is written only where its value is truthy.
abbrev pub flag_value : Bool → Option Bool
flag_value true = some true
flag_value false = none

abbrev pub mapping_value : Entries → Option Yaml
mapping_value empty = none
mapping_value (entry k v es) = some (mapping (entry k v es))

abbrev pub flags_value : List Str → Option Yaml
flags_value [] = none
flags_value (s ∷ ss) = some (items (texts (s ∷ ss)))

abbrev pub hardfork_value : ℕ → Option ℕ
hardfork_value val = if val == 0 then none else some val

-- `DevnetConfig.to_dict`
unfoldable pub devnet_to_dict : DevnetConfig → DevnetData
devnet_to_dict c = record {
  chain_id = some c.chain_id;
  accounts = some c.accounts;
  epoch_length = some c.epoch_length;
  gas_limit = some c.gas_limit;
  seed = c.seed;
  mnemonic = some c.mnemonic;
  backend = if not (eqb c.backend default_backend) then some c.backend else none;
  tempo_bin = none;
  tempo_xtask_bin = none;
  no_dkg_in_genesis = flag_value c.no_dkg_in_genesis;
  no_extra_tokens = flag_value c.no_extra_tokens;
  no_pairwise_liquidity = flag_value c.no_pairwise_liquidity;
  hardforks = map hardfork_value c.hardforks;
  patch_genesis = mapping_value c.patch_genesis;
  patch_reth = mapping_value c.patch_reth;
  patch_node_flags = flags_value c.patch_node_flags;
  patch_genesis_flags = flags_value c.patch_genesis_flags;
  docker = section (docker_to_dict c.docker);
  validators = map validator_to_dict c.validators;
}
