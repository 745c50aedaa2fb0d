-- ===== src/Devnet/Docker.antt =====
-- The services of the Docker Compose files that tempo/devnet/supervisor.py writes.
pub mod Commands
pub mod Loop
pub mod Addresses
pub mod Succeeds
pub mod Plans
pub mod Total
pub mod Compose
use tempo_py.Prelude.{
  ℕ, suc, ◌+◌, Bool, true, false, if◌then◌else◌, List, [], ◌∷◌, ◌++◌, Option, none, some, Result,
  ok, err, index_error, not_implemented_error, value_error, ◌>>=◌, ◌>>◌, require, length,
}
use tempo_py.Python.Bytes.{Str, codes, eqb}
use tempo_py.Python.Text.{decimal}
use tempo_py.Devnet.Ports.{execution_p2p_port, http_rpc_port, ws_rpc_port}
use tempo_py.Devnet.Config.{ValidatorConfig, FollowNodeConfig, P2pProxyConfig, PublicNodeConfig}
use tempo_py.Devnet.DevnetConfig.{DevnetConfig, Topology, single, two_network}
use tempo_py.Devnet.DevnetConfig.ToDict.{validator_network_name, public_network_name}
use tempo_py.Devnet.DevnetConfig.Genesis.{
  Ipaddress, docker_ip, docker_public_ip, docker_consensus_p2p_port,
}
use tempo_py.Devnet.Shell.{run_script_content}
use tempo_py.Devnet.Docker.Commands.{
  Enodes, docker_node_command, docker_node_two_network_command, docker_follow_node_command,
  docker_p2p_proxy_command, docker_public_node_command,
}

-- A service; the image, the entry point and the command are the same for all. `networks` has the
-- name and the static address of each network.
pub record Service : Type 0 where
  pub volume : Str
  pub ports : List Str
  pub healthcheck : Str
  pub restart : Str
  pub depends_on : Option Str
  pub networks : List (Str × Str)

-- The services by their names, and the scripts that were written, by their directories.
pub record Output : Type 0 where
  pub services : List (Str × Service)
  pub scripts : List (Str × Str)

-- `services[name] = service`: a name that is there keeps its place.
unfoldable pub insert : Str → Service → List (Str × Service) → List (Str × Service)
insert name service [] = (name, service) ∷ []
insert name service ((other, s) ∷ services) =
    let rest = insert name service services in
    if eqb name other then (name, service) ∷ services else (other, s) ∷ rest

-- `_healthcheck_config`, its test.
unfoldable pub healthcheck_config : Str → ℕ → Str
healthcheck_config host port =
    codes "/bin/bash -c 'exec 3<>/dev/tcp/" ++ (host ++ (codes "/" ++ (decimal port ++ codes "'")))

-- `f"{published}:{port}"`
abbrev pub published : ℕ → ℕ → Str
published port container_port = decimal port ++ (codes ":" ++ decimal container_port)

abbrev pub rpc_ports : ℕ → List Str
rpc_ports base_port =
    published (http_rpc_port base_port) (http_rpc_port docker_consensus_p2p_port)
    ∷ published (ws_rpc_port base_port) (ws_rpc_port docker_consensus_p2p_port)
    ∷ []

-- `{name: {"ipv4_address": a}, other: {"ipv4_address": b}}`, where the second takes the place of
-- the first if the names are equal.
unfoldable pub two_networks : Str → Str → Str → Str → List (Str × Str)
two_networks name a other b = if eqb name other then (name, b) ∷ [] else (name, a) ∷ (other, b) ∷ []

-- `write_docker_run_script`, the text.
unfoldable pub docker_run_script : List Str → Result Str
docker_run_script args = run_script_content args (codes "docker") true

-- A service with the name that it gets, and its script.
pub record Plan : Type 0 where
  pub name : Str
  pub service : Service
  pub script : Str

-- One of the loops over nodes, which numbers them from `index` on.
unfoldable pub add_services {ℓ} :
    {A : Type ℓ} → (ℕ → A → Result Plan) → ℕ → List A → Output → Result Output
add_services plan index [] out = ok out
add_services plan index (x ∷ xs) out = do
  p ← plan index x
  add_services plan (suc index) xs (record {
    services = insert p.name p.service out.services;
    scripts = out.scripts ++ ((p.name, p.script) ∷ []);
  })

module _ (ip : Ipaddress) (c : DevnetConfig) (enodes : Enodes) where
  -- The body of the loop of `_generate_single_network_compose`.
  unfoldable pub single_network_plan : ℕ → ValidatorConfig → Result Plan
  single_network_plan index val = do
    script ← docker_run_script (docker_node_command c enodes val)
    address ← docker_ip ip c index
    ok (record {
      name = val.moniker;
      script = script;
      service = record {
        volume = val.moniker;
        ports = rpc_ports val.base_port;
        healthcheck =
            healthcheck_config (codes "localhost") (http_rpc_port docker_consensus_p2p_port);
        restart = codes "unless-stopped";
        depends_on = none;
        networks = (c.docker.network, address) ∷ [];
      };
    })

  -- The bodies of the loops of `_generate_two_network_compose`: validators,
  unfoldable pub validator_plan : ℕ → ValidatorConfig → Result Plan
  validator_plan index val = do
    args ← docker_node_two_network_command ip c enodes val index
    script ← docker_run_script args
    address ← docker_ip ip c index
    ok (record {
      name = val.moniker;
      script = script;
      service = record {
        volume = val.moniker;
        ports = rpc_ports val.base_port;
        healthcheck = healthcheck_config address (http_rpc_port docker_consensus_p2p_port);
        restart = codes "unless-stopped";
        depends_on = none;
        networks = (validator_network_name c.docker, address) ∷ [];
      };
    })

  -- follow nodes,
  unfoldable pub follow_plan : ℕ → FollowNodeConfig → Result Plan
  follow_plan index follow = do
    args ← docker_follow_node_command ip c enodes
    script ← docker_run_script args
    val_ip ← docker_ip ip c index
    pub_ip ← docker_public_ip ip c index
    ok (record {
      name = follow.moniker;
      script = script;
      service = record {
        volume = follow.moniker;
        ports = rpc_ports follow.port;
        healthcheck =
            healthcheck_config (codes "localhost") (http_rpc_port docker_consensus_p2p_port);
        restart = codes "on-failure";
        depends_on = some (codes "node0");
        networks =
            two_networks (validator_network_name c.docker) val_ip (public_network_name c.docker)
              pub_ip;
      };
    })

  -- proxies,
  unfoldable pub proxy_plan : ℕ → P2pProxyConfig → Result Plan
  proxy_plan index proxy = do
    args ← docker_p2p_proxy_command ip c
    script ← docker_run_script args
    val_ip ← docker_ip ip c index
    pub_ip ← docker_public_ip ip c index
    ok (record {
      name = proxy.moniker;
      script = script;
      service = record {
        volume = proxy.moniker;
        ports = published proxy.port (execution_p2p_port docker_consensus_p2p_port) ∷ [];
        healthcheck =
            healthcheck_config (codes "localhost") (execution_p2p_port docker_consensus_p2p_port);
        restart = codes "on-failure";
        depends_on = none;
        networks =
            two_networks (validator_network_name c.docker) val_ip (public_network_name c.docker)
              pub_ip;
      };
    })

  -- `config.docker_follow_nodes[0].moniker`
  unfoldable pub first_follow : List FollowNodeConfig → Result Str
  first_follow [] = err index_error
  first_follow (f ∷ fs) = ok f.moniker

  -- and public nodes.
  unfoldable pub public_plan : ℕ → PublicNodeConfig → Result Plan
  unfolding first_follow
  public_plan index node = do
    script ← docker_run_script (docker_public_node_command c enodes)
    pub_ip ← docker_public_ip ip c index
    upstream ← first_follow c.docker.follow_nodes
    ok (record {
      name = node.moniker;
      script = script;
      service = record {
        volume = node.moniker;
        ports = rpc_ports node.port;
        healthcheck =
            healthcheck_config (codes "localhost") (http_rpc_port docker_consensus_p2p_port);
        restart = codes "on-failure";
        depends_on = some upstream;
        networks = (public_network_name c.docker, pub_ip) ∷ [];
      };
    })

  abbrev nothing : Output
  nothing = record { services = []; scripts = [] }

  -- `_generate_single_network_compose`
  unfoldable pub single_network_compose : Result Output
  single_network_compose = add_services single_network_plan 0 c.validators nothing

  -- `_generate_two_network_compose`
  unfoldable pub two_network_compose : Result Output
  two_network_compose = do
    let f_start = length c.validators
    let p_start = f_start + length c.docker.follow_nodes
    let n_start = p_start + length c.docker.p2p_proxies
    validators ← add_services validator_plan 0 c.validators nothing
    follows ← add_services follow_plan f_start c.docker.follow_nodes validators
    proxies ← add_services proxy_plan p_start c.docker.p2p_proxies follows
    add_services public_plan n_start c.docker.public_nodes proxies

  -- `generate_docker_compose`, the services that it writes.
  unfoldable pub generate_services : Result Output
  generate_services =
      require (eqb c.backend (codes "tempo")) not_implemented_error >> (elim (c.docker.topology) [
        | two_network ↦ two_network_compose
        | single ↦ single_network_compose
      ])
