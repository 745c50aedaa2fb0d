-- ===== src/Devnet/Cluster/Directories.antt =====
-- `config` and `node_dirs` of `ClusterCLI` in tempo/devnet/cluster.py: the nodes that a data directory
-- shows by its directories.
pub mod Order
pub mod Selected
pub mod Detected
use tempo_py.Prelude.{
  ℕ, zero, suc, ◌+◌, ◌*◌, ◌==◌, Bool, true, false, ltb, ◌&&◌, ◌||◌, if◌then◌else◌, List, [], ◌∷◌,
  Option, none, some, Result, ok, ◌>>=◌, replicate,
}
use tempo_py.Python.Bytes.{Str, codes}
use tempo_py.Devnet.Config.{ValidatorDict}
use tempo_py.Devnet.DevnetConfig.{DevnetData, DevnetConfig, falsy, new_devnet}
use tempo_py.Devnet.Enode.{starts_with}

-- `a <= b` on `str`
unfoldable pub leb_str : Str → Str → Bool
leb_str [] b = true
leb_str (x ∷ xs) [] = false
leb_str (x ∷ xs) (y ∷ ys) = ltb x y || ((x == y) && leb_str xs ys)

unfoldable pub place : Str → List Str → List Str
place x [] = x ∷ []
place x (y ∷ ys) = let rest = place x ys in if leb_str x y then x ∷ y ∷ ys else y ∷ rest

-- `sorted`
unfoldable pub sorted : List Str → List Str
unfolding place
sorted [] = []
sorted (x ∷ xs) = place x (sorted xs)

-- The names of the entries that are directories and begin with "node".
unfoldable pub node_names : List (Str × Bool) → List Str
node_names [] = []
node_names ((name, is_dir) ∷ entries) =
    let rest = node_names entries in
    if is_dir && starts_with (codes "node") name then name ∷ rest else rest

-- `node_dirs`, of the entries of the data directory
unfoldable pub node_dirs : List (Str × Bool) → List Str
unfolding sorted node_names
node_dirs entries = sorted (node_names entries)

-- The validators of `raw`, from number `i` on.
unfoldable pub detected_validators : ℕ → List Str → List ValidatorDict
detected_validators i [] = []
detected_validators i (name ∷ names) =
    record {
      host = some (codes "127.0.0.1");
      port = some (8000 + i * 10);
      moniker = some name;
      base_port = none;
      p2p_host = none;
      rpc_host = none;
    }
    ∷ detected_validators (suc i) names

-- `raw`, which has no other key
unfoldable pub detected : List Str → DevnetData
unfolding detected_validators
detected names = record {
  chain_id = none;
  accounts = none;
  epoch_length = none;
  gas_limit = none;
  seed = none;
  mnemonic = none;
  backend = none;
  tempo_bin = none;
  tempo_xtask_bin = none;
  no_dkg_in_genesis = none;
  no_extra_tokens = none;
  no_pairwise_liquidity = none;
  hardforks = replicate 9 none;
  patch_genesis = none;
  patch_reth = none;
  patch_node_flags = none;
  patch_genesis_flags = none;
  docker = falsy;
  validators = detected_validators 0 names;
}

-- The property `config`: the one that is there, or that of devnet.yaml, or one for the directories.
unfoldable pub cluster_config :
    Option DevnetConfig → Option (Result DevnetData) → List (Str × Bool) → Result DevnetConfig
unfolding node_dirs detected
cluster_config (some c) yaml entries = ok c
cluster_config none (some loaded) entries = loaded >>= new_devnet
cluster_config none none entries = new_devnet (detected (node_dirs entries))
