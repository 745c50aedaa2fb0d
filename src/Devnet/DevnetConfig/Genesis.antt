-- ===== src/Devnet/DevnetConfig/Genesis.antt =====
-- The command line arguments and addresses that tempo/devnet/config.py makes of a configuration.
use tempo_py.Prelude.{
  ℕ, suc, ◌+◌, ◌==◌, Bool, if◌then◌else◌, List, [], ◌∷◌, ◌++◌, map, Option, none, some, Result, ok,
  ◌>>=◌, traverse, length,
}
use tempo_py.Python.Bytes.{Str, codes}
use tempo_py.Python.Text.{join, decimal}
use tempo_py.Devnet.Config.{ValidatorDict, validator_arg}
use tempo_py.Devnet.Ports.{Sockets, range, find_free_base_ports}
use tempo_py.Devnet.DevnetConfig.{DevnetConfig, falsy, new_devnet}
use tempo_py.Devnet.DevnetConfig.ToDict.{public_subnet_cidr}

-- `str(ip_network(subnet, strict=False).network_address + n)` of the library ipaddress.
pub record Ipaddress : Type 0 where
  pub address : Str → ℕ → Result Str

abbrev pub docker_consensus_p2p_port : ℕ
docker_consensus_p2p_port = 8000

abbrev pub docker_ip_host_octet_base : ℕ
docker_ip_host_octet_base = 10

-- `validators_arg`
unfoldable pub validators_arg : DevnetConfig → Str
validators_arg c = join (codes ",") (map validator_arg c.validators)

-- `docker_ip`
unfoldable pub docker_ip : Ipaddress → DevnetConfig → ℕ → Result Str
docker_ip ip c index = ip.address c.docker.subnet (docker_ip_host_octet_base + index)

-- `docker_public_ip`, whose base is the same number.
unfoldable pub docker_public_ip : Ipaddress → DevnetConfig → ℕ → Result Str
docker_public_ip ip c index =
    ip.address (public_subnet_cidr c.docker) (docker_ip_host_octet_base + index)

-- `docker_validator_addr`
unfoldable pub docker_validator_addr : Ipaddress → DevnetConfig → ℕ → Result Str
docker_validator_addr ip c index = do
  address ← docker_ip ip c index
  ok (address ++ (codes ":" ++ decimal docker_consensus_p2p_port))

-- `docker_validators_arg`
unfoldable pub docker_validators_arg : Ipaddress → DevnetConfig → Result Str
docker_validators_arg ip c = do
  addresses ← traverse (docker_validator_addr ip c) (range 0 (length c.validators))
  ok (join (codes ",") addresses)

-- `validators_arg or self.validators_arg`
unfoldable pub arg_or_default : Option Str → DevnetConfig → Str
arg_or_default none c = validators_arg c
arg_or_default (some []) c = validators_arg c
arg_or_default (some (x ∷ xs)) c = x ∷ xs

abbrev pub flag_arg : Str → Bool → List Str
flag_arg flag set = if set then flag ∷ [] else []

-- The flags of the hardforks whose time is not 0, from number `i` on.
unfoldable pub hardfork_args : ℕ → List ℕ → List Str
hardfork_args i [] = []
hardfork_args i (val ∷ vals) =
    let rest = hardfork_args (suc i) vals in
    if val == 0 then rest else (codes "--t" ++ (decimal i ++ codes "-time")) ∷ decimal val ∷ rest

abbrev pub seed_args : Option ℕ → List Str
seed_args none = []
seed_args (some seed) = codes "--seed" ∷ decimal seed ∷ []

-- `to_genesis_args`
unfoldable pub to_genesis_args : DevnetConfig → Option Str → List Str
to_genesis_args c override =
    codes "--chain-id"
    ∷ decimal c.chain_id
    ∷ codes "--accounts"
    ∷ decimal c.accounts
    ∷ codes "--epoch-length"
    ∷ decimal c.epoch_length
    ∷ codes "--gas-limit"
    ∷ decimal c.gas_limit
    ∷ codes "--mnemonic"
    ∷ c.mnemonic
    ∷ codes "--validators"
    ∷ arg_or_default override c
    ∷ (seed_args c.seed
        ++ (flag_arg (codes "--no-dkg-in-genesis") c.no_dkg_in_genesis
            ++ (flag_arg (codes "--no-extra-tokens") c.no_extra_tokens
                ++ (flag_arg (codes "--no-pairwise-liquidity") c.no_pairwise_liquidity
                    ++ (hardfork_args 0 c.hardforks ++ c.patch_genesis_flags)))))

-- The validators of `ephemeral`: one for each base port, numbered from `i` on.
unfoldable pub ephemeral_validators : Str → ℕ → List ℕ → List ValidatorDict
ephemeral_validators host i [] = []
ephemeral_validators host i (port ∷ ports) =
    record {
      host = some host;
      port = some port;
      moniker = some (codes "node" ++ decimal i);
      base_port = none;
      p2p_host = none;
      rpc_host = some host;
    }
    ∷ ephemeral_validators host (suc i) ports

-- A name that is given and not empty.
abbrev given : Option Str → Option Str
given none = none
given (some []) = none
given (some (x ∷ xs)) = some (x ∷ xs)

-- `DevnetConfig.ephemeral`
unfoldable pub ephemeral :
    Sockets → ℕ → Str → ℕ → Str → Option Str → Option Str → Result DevnetConfig
ephemeral sockets n backend chain_id host node_bin xtask_bin = do
  ports ← find_free_base_ports sockets n 10
  new_devnet (record {
    chain_id = some chain_id;
    accounts = none;
    epoch_length = none;
    gas_limit = none;
    seed = none;
    mnemonic = none;
    backend = some backend;
    tempo_bin = given node_bin;
    tempo_xtask_bin = given xtask_bin;
    no_dkg_in_genesis = none;
    no_extra_tokens = none;
    no_pairwise_liquidity = none;
    hardforks = map (λ i. none) (range 0 9);
    patch_genesis = none;
    patch_reth = none;
    patch_node_flags = none;
    patch_genesis_flags = none;
    docker = falsy;
    validators = ephemeral_validators host 0 ports;
  })
