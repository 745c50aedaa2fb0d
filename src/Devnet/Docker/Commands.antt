-- ===== src/Devnet/Docker/Commands.antt =====
-- The command lines of the containers in tempo/devnet/supervisor.py.
use tempo_py.Prelude.{
  ℕ, true, not, ◌&&◌, if◌then◌else◌, List, [], ◌∷◌, ◌++◌, Option, none, some, Result, ok, ◌>>=◌,
}
use tempo_py.Python.Bytes.{Str, codes, eqb}
use tempo_py.Python.Text.{join, decimal}
use tempo_py.Devnet.Ports.{execution_p2p_port, http_rpc_port, ws_rpc_port}
use tempo_py.Devnet.Config.{ValidatorConfig, FollowNodeConfig, P2pProxyConfig}
use tempo_py.Devnet.DevnetConfig.{DevnetConfig}
use tempo_py.Devnet.DevnetConfig.Genesis.{Ipaddress, docker_ip, docker_consensus_p2p_port}
use tempo_py.Devnet.Backends.{NodeOptions, common_node_args}

-- The identities in the files enode.identity, by the name of the directory: of one that may have
-- the file, and of one in which `_ensure_enode_keypair` has been called.
pub record Enodes : Type 0 where
  pub identity : Str → Option Str
  pub ensured : Str → Option Str

-- `f"enode://{identity}@{host}:{port}"`, in front of other peers, where there is an identity.
abbrev pub add_peer : Option Str → Str → ℕ → List Str → List Str
add_peer none host port peers = peers
add_peer (some id) host port peers =
    (codes "enode://" ++ (id ++ (codes "@" ++ (host ++ (codes ":" ++ decimal port))))) ∷ peers

-- `_trusted_peers`
unfoldable pub trusted_peers : Enodes → List ValidatorConfig → List Str
trusted_peers enodes [] = []
trusted_peers enodes (val ∷ vals) =
    add_peer (enodes.identity val.moniker) val.host (execution_p2p_port val.base_port)
      (trusted_peers enodes vals)

abbrev pub docker_execution_p2p : ℕ
docker_execution_p2p = 8001

-- `_docker_trusted_peers`; an empty name excludes nothing.
unfoldable pub docker_trusted_peers : Enodes → Str → List ValidatorConfig → List Str
docker_trusted_peers enodes excluded [] = []
docker_trusted_peers enodes excluded (val ∷ vals) =
    let rest = docker_trusted_peers enodes excluded vals in
    if not (eqb excluded []) && eqb val.moniker excluded
    then rest
    else add_peer (enodes.identity val.moniker) val.moniker docker_execution_p2p rest

-- `_docker_service_trusted_peers`, of the services' monikers.
unfoldable pub service_trusted_peers : Enodes → List Str → List Str
service_trusted_peers enodes [] = []
service_trusted_peers enodes (moniker ∷ monikers) =
    add_peer (enodes.ensured moniker) moniker (execution_p2p_port docker_consensus_p2p_port)
      (service_trusted_peers enodes monikers)

-- The options that both kinds of validator container share; all three addresses are `host`.
abbrev validator_options : DevnetConfig → Enodes → ValidatorConfig → Str → NodeOptions
validator_options c enodes val host = record {
  tempo_bin = c.tempo_bin;
  base_port = docker_consensus_p2p_port;
  listen_addr = host;
  metrics_addr = host;
  rpc_addr = host;
  genesis_path = codes "./genesis.json";
  datadir = codes ".";
  signing_key = codes "./signing.key";
  signing_share = codes "./signing.share";
  secret_file = codes "./.secret";
  enode_key = codes "./enode.key";
  trusted_peers = docker_trusted_peers enodes val.moniker c.validators;
  extra_flags = c.patch_node_flags;
  include_bootnodes_endpoint = true;
}

-- `_docker_node_command`
unfoldable pub docker_node_command : DevnetConfig → Enodes → ValidatorConfig → List Str
docker_node_command c enodes val =
    common_node_args (validator_options c enodes val (codes "0.0.0.0"))

-- `_docker_node_two_network_command`
unfoldable pub docker_node_two_network_command :
    Ipaddress → DevnetConfig → Enodes → ValidatorConfig → ℕ → Result (List Str)
docker_node_two_network_command ip c enodes val index = do
  val_ip ← docker_ip ip c index
  ok (common_node_args (validator_options c enodes val val_ip))

-- The peers and the key `./enode.key`, where there is a peer.
unfoldable pub peer_args : List Str → List Str
peer_args [] = []
peer_args (p ∷ ps) =
    codes "--port"
    ∷ decimal (execution_p2p_port docker_consensus_p2p_port)
    ∷ codes "--discovery.port"
    ∷ decimal (execution_p2p_port docker_consensus_p2p_port)
    ∷ codes "--p2p-secret-key"
    ∷ codes "./enode.key"
    ∷ codes "--trusted-peers"
    ∷ join (codes ",") (p ∷ ps)
    ∷ []

-- `_build_follow_node_args`, whose callers give a key exactly where they give peers.
unfoldable pub follow_node_args : Str → Str → List Str → List Str
follow_node_args tempo_bin upstream_ws peers =
    tempo_bin
    ∷ codes "node"
    ∷ codes "--follow"
    ∷ upstream_ws
    ∷ codes "--chain"
    ∷ codes "./genesis.json"
    ∷ codes "--datadir"
    ∷ codes "."
    ∷ codes "--http"
    ∷ codes "--http.addr"
    ∷ codes "0.0.0.0"
    ∷ codes "--http.port"
    ∷ decimal (http_rpc_port docker_consensus_p2p_port)
    ∷ codes "--http.api"
    ∷ codes "all"
    ∷ codes "--ws"
    ∷ codes "--ws.addr"
    ∷ codes "0.0.0.0"
    ∷ codes "--ws.port"
    ∷ decimal (ws_rpc_port docker_consensus_p2p_port)
    ∷ peer_args peers

abbrev pub proxy_names : List P2pProxyConfig → List Str
proxy_names [] = []
proxy_names (p ∷ ps) = p.moniker ∷ proxy_names ps

abbrev pub follow_names : List FollowNodeConfig → List Str
follow_names [] = []
follow_names (f ∷ fs) = f.moniker ∷ follow_names fs

-- `_docker_follow_node_command`
unfoldable pub docker_follow_node_command : Ipaddress → DevnetConfig → Enodes → Result (List Str)
docker_follow_node_command ip c enodes = do
  val_ws_ip ← docker_ip ip c 0
  let upstream_ws =
      codes "ws://" ++ (val_ws_ip ++ (codes ":" ++ decimal (ws_rpc_port docker_consensus_p2p_port)))
  let peers =
      docker_trusted_peers enodes [] c.validators
      ++ service_trusted_peers enodes (proxy_names c.docker.p2p_proxies)
  ok (follow_node_args c.tempo_bin upstream_ws peers ++ c.patch_node_flags)

-- `_docker_p2p_proxy_command`
unfoldable pub docker_p2p_proxy_command : Ipaddress → DevnetConfig → Result (List Str)
docker_p2p_proxy_command ip c = do
  val_rpc_ip ← docker_ip ip c 0
  ok (
      c.tempo_bin
      ∷ codes "p2p-proxy"
      ∷ codes "--rpc-url"
      ∷ (codes "http://"
          ++ (val_rpc_ip ++ (codes ":" ++ decimal (http_rpc_port docker_consensus_p2p_port))))
      ∷ codes "--chain"
      ∷ codes "./genesis.json"
      ∷ codes "--p2p-secret-key"
      ∷ codes "./enode.key"
      ∷ codes "--port"
      ∷ decimal (execution_p2p_port docker_consensus_p2p_port)
      ∷ c.patch_node_flags)

-- `follow_nodes[0].moniker if follow_nodes else "follower0"`
abbrev upstream_moniker : List FollowNodeConfig → Str
upstream_moniker [] = codes "follower0"
upstream_moniker (f ∷ fs) = f.moniker

-- `_docker_public_node_command`
unfoldable pub docker_public_node_command : DevnetConfig → Enodes → List Str
docker_public_node_command c enodes =
    follow_node_args c.tempo_bin
      (codes "ws://"
        ++ (upstream_moniker c.docker.follow_nodes
            ++ (codes ":" ++ decimal (ws_rpc_port docker_consensus_p2p_port))))
      (service_trusted_peers enodes (follow_names c.docker.follow_nodes)
        ++ service_trusted_peers enodes (proxy_names c.docker.p2p_proxies))
    ++ c.patch_node_flags
