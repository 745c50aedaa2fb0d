-- ===== src/Devnet/Backends.antt =====
-- The command lines and layouts of tempo/devnet/backends.py.
pub mod Localnet
use tempo_py.Prelude.{
  ℕ, ◌+◌, Bool, false, if◌then◌else◌, List, [], ◌∷◌, ◌++◌, Option, none, some, Result, ok, err,
  value_error,
}
use tempo_py.Python.Bytes.{Str, codes, eqb}
use tempo_py.Python.Text.{join, decimal}
use tempo_py.Devnet.Ports.{
  consensus_p2p_port, execution_p2p_port, consensus_metrics_port, authrpc_port, http_rpc_port,
  ws_rpc_port,
}
use tempo_py.Devnet.Config.{ValidatorConfig}
use tempo_py.Devnet.DevnetConfig.{DevnetConfig}
use tempo_py.Devnet.DevnetConfig.Genesis.{to_genesis_args, arg_or_default}

-- `f"{host}:{port}"`
abbrev pub socket_text : Str → ℕ → Str
socket_text host port = host ++ (codes ":" ++ decimal port)

-- The arguments of `_build_common_node_args`; `extra_flags` that are None are [].
pub record NodeOptions : Type 0 where
  pub tempo_bin : Str
  pub base_port : ℕ
  pub listen_addr : Str
  pub metrics_addr : Str
  pub rpc_addr : Str
  pub genesis_path : Str
  pub datadir : Str
  pub signing_key : Str
  pub signing_share : Str
  pub secret_file : Str
  pub enode_key : Str
  pub trusted_peers : List Str
  pub extra_flags : List Str
  pub include_bootnodes_endpoint : Bool

-- `_build_common_node_args`
unfoldable pub common_node_args : NodeOptions → List Str
common_node_args o =
    o.tempo_bin
    ∷ codes "node"
    ∷ codes "--consensus.signing-key"
    ∷ o.signing_key
    ∷ codes "--consensus.secret"
    ∷ o.secret_file
    ∷ codes "--consensus.signing-share"
    ∷ o.signing_share
    ∷ codes "--consensus.listen-address"
    ∷ socket_text o.listen_addr (consensus_p2p_port o.base_port)
    ∷ codes "--consensus.metrics-address"
    ∷ socket_text o.metrics_addr (consensus_metrics_port o.base_port)
    ∷ codes "--chain"
    ∷ o.genesis_path
    ∷ codes "--datadir"
    ∷ o.datadir
    ∷ codes "--port"
    ∷ decimal (execution_p2p_port o.base_port)
    ∷ codes "--discovery.port"
    ∷ decimal (execution_p2p_port o.base_port)
    ∷ codes "--p2p-secret-key"
    ∷ o.enode_key
    ∷ codes "--trusted-peers"
    ∷ join (codes ",") o.trusted_peers
    ∷ codes "--authrpc.port"
    ∷ decimal (authrpc_port o.base_port)
    ∷ codes "--http"
    ∷ codes "--http.addr"
    ∷ o.rpc_addr
    ∷ codes "--http.port"
    ∷ decimal (http_rpc_port o.base_port)
    ∷ codes "--http.api"
    ∷ codes "all"
    ∷ codes "--ws"
    ∷ codes "--ws.addr"
    ∷ o.rpc_addr
    ∷ codes "--ws.port"
    ∷ decimal (ws_rpc_port o.base_port)
    ∷ codes "--consensus.use-local-defaults"
    ∷ codes "--consensus.allow-private-ips"
    ∷ ((if o.include_bootnodes_endpoint
          then codes "--tempo.bootnodes-endpoint" ∷ codes "none" ∷ []
          else [])
        ++ o.extra_flags)

pub data Backend : Type 0 where
  tempo allegro : Backend

-- `get_backend`
unfoldable pub get_backend : Str → Result Backend
get_backend name =
    if eqb name (codes "tempo")
    then ok tempo
    else if eqb name (codes "allegro")
    then ok allegro
    else err value_error

-- `localnet_args` of both backends.
unfoldable pub localnet_args : Backend → DevnetConfig → Str → Option Str → List Str
localnet_args tempo c data_dir override =
    c.tempo_xtask_bin
    ∷ codes "generate-localnet"
    ∷ codes "--output"
    ∷ data_dir
    ∷ codes "--force"
    ∷ to_genesis_args c override
localnet_args allegro c data_dir override =
    c.tempo_xtask_bin
    ∷ codes "genesis"
    ∷ codes "--output"
    ∷ data_dir
    ∷ codes "--chain-id"
    ∷ decimal c.chain_id
    ∷ codes "--validators"
    ∷ arg_or_default override c
    ∷ c.patch_genesis_flags

-- The arguments of `node_args` that the caller chooses.
pub record NodeContext : Type 0 where
  pub genesis_path : Str
  pub datadir : Str
  pub trusted_peers : List Str
  pub extra_flags : List Str

-- `TempoBackend.node_args`, behind `write_secret_file`.
unfoldable pub tempo_node_args : DevnetConfig → ValidatorConfig → NodeContext → List Str
tempo_node_args c val context = common_node_args (record {
  tempo_bin = c.tempo_bin;
  base_port = val.base_port;
  listen_addr = val.p2p_host;
  metrics_addr = val.host;
  rpc_addr = val.rpc_host;
  genesis_path = context.genesis_path;
  datadir = context.datadir;
  signing_key = codes "./signing.key";
  signing_share = codes "./signing.share";
  secret_file = codes "./.secret";
  enode_key = codes "./enode.key";
  trusted_peers = context.trusted_peers;
  extra_flags = context.extra_flags;
  include_bootnodes_endpoint = false;
})

-- `AllegroBackend.node_args`
unfoldable pub allegro_node_args : DevnetConfig → ValidatorConfig → ℕ → NodeContext → List Str
allegro_node_args c val index context =
    c.tempo_bin
    ∷ codes "node"
    ∷ codes "--chain"
    ∷ context.genesis_path
    ∷ codes "--datadir"
    ∷ context.datadir
    ∷ codes "--http"
    ∷ codes "--http.addr"
    ∷ val.rpc_host
    ∷ codes "--http.port"
    ∷ decimal (http_rpc_port val.base_port)
    ∷ codes "--http.api"
    ∷ codes "all"
    ∷ codes "--ws"
    ∷ codes "--ws.addr"
    ∷ val.rpc_host
    ∷ codes "--ws.port"
    ∷ decimal (ws_rpc_port val.base_port)
    ∷ codes "--authrpc.port"
    ∷ decimal (authrpc_port val.base_port)
    ∷ codes "--port"
    ∷ decimal (execution_p2p_port val.base_port)
    ∷ codes "--disable-discovery"
    ∷ codes "--ipcdisable"
    ∷ codes "--consensus.node-index"
    ∷ decimal index
    ∷ codes "--consensus.listen-address"
    ∷ socket_text val.p2p_host (consensus_p2p_port val.base_port)
    ∷ context.extra_flags

unfoldable pub node_args : Backend → DevnetConfig → ValidatorConfig → ℕ → NodeContext → List Str
node_args tempo c val index context = tempo_node_args c val context
node_args allegro c val index context = allegro_node_args c val index context
