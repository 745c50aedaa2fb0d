-- ===== src/Devnet/Cluster.antt =====
-- `ClusterCLI` of tempo/devnet/cluster.py: the processes under supervisord, and the addresses of the
-- nodes. The configuration is given; supervisord is a parameter with states `S`.
pub mod Supervised
pub mod Starting
pub mod Processes
pub mod Endpoints
pub mod Directories
use tempo_py.Prelude.{
  Bool, true, false, if◌then◌else◌, List, [], ◌∷◌, ◌++◌, ℕ, Result, ok, err, key_error, ◌>>=◌,
}
use tempo_py.Python.Bytes.{Str, codes, eqb}
use tempo_py.Devnet.Ports.{http_rpc_port, ws_rpc_port}
use tempo_py.Devnet.Config.{ValidatorConfig, FollowNodeConfig, PublicNodeConfig}
use tempo_py.Devnet.DevnetConfig.{DevnetConfig}
use tempo_py.Devnet.Backends.{socket_text}

-- The part of `getAllProcessInfo` that is read, one for each process.
pub record ProcessInfo : Type 0 where
  pub name : Str
  pub statename : Str

-- The calls of supervisord's XML-RPC interface.
pub record Supervisor {ℓ} (S : Type ℓ) : Type ℓ where
  pub get_all_process_info : S → Result (List ProcessInfo) × S
  pub start_process : Str → S → Result Bool × S
  pub stop_process : Str → S → Result Bool × S

-- Is the proxy there, and the state of supervisord.
pub record Cluster {ℓ} (S : Type ℓ) : Type ℓ where
  pub has_proxy : Bool
  pub system : S

module _ {ℓ} {S : Type ℓ} (supervisor : Supervisor S) where
  -- A call through the property `supervisor`, which makes the proxy.
  abbrev called {κ} : {R : Type κ} → Result R × S → Result R × Cluster S
  called (r, s) = (r, record { has_proxy = true; system = s })

  -- `status`, which drops the proxy where the call raises.
  unfoldable pub status : Cluster S → Result (List ProcessInfo) × Cluster S
  status cluster = answer (supervisor.get_all_process_info cluster.system)
    where
      answer : Result (List ProcessInfo) × S → Result (List ProcessInfo) × Cluster S
      answer (ok raw, s) = (ok raw, record { has_proxy = true; system = s })
      answer (err e, s) = (err e, record { has_proxy = false; system = s })

  unfoldable pub start_node : Str → Cluster S → Result Bool × Cluster S
  start_node moniker cluster = called (supervisor.start_process moniker cluster.system)

  unfoldable pub stop_node : Str → Cluster S → Result Bool × Cluster S
  stop_node moniker cluster = called (supervisor.stop_process moniker cluster.system)

  -- The next step of a loop, unless an exception was raised.
  abbrev pub continue {κ κ'} :
      {R : Type κ} {R' : Type κ'}
      → (R → Cluster S → Result R' × Cluster S)
      → Result R × Cluster S
      → Result R' × Cluster S
  continue next (ok r, cluster) = next r cluster
  continue next (err e, cluster) = (err e, cluster)

  unfoldable pub start_each : List ProcessInfo → Cluster S → Result Bool × Cluster S
  unfolding start_node
  start_each [] cluster = (ok true, cluster)
  start_each (info ∷ infos) cluster =
      if eqb info.statename (codes "STOPPED")
      then continue (λ started after. start_each infos after) (start_node info.name cluster)
      else start_each infos cluster

  -- `start_all`
  unfoldable pub start_all : Cluster S → Result Bool × Cluster S
  unfolding status start_each
  start_all cluster = continue start_each (status cluster)

  unfoldable pub stop_each : List ProcessInfo → Cluster S → Result Bool × Cluster S
  unfolding stop_node
  stop_each [] cluster = (ok true, cluster)
  stop_each (info ∷ infos) cluster =
      continue (λ stopped after. stop_each infos after) (stop_node info.name cluster)

  -- `stop_all`
  unfoldable pub stop_all : Cluster S → Result Bool × Cluster S
  unfolding status stop_each
  stop_all cluster = continue stop_each (status cluster)

  -- `restart_node`
  unfoldable pub restart_node : Str → Cluster S → Result Bool × Cluster S
  unfolding start_node stop_node
  restart_node moniker cluster =
      continue (λ stopped after. if stopped then start_node moniker after else (ok false, after))
        (stop_node moniker cluster)

-- `_find_rpc_endpoint`: its loop over follow nodes and then over public nodes,
unfoldable pub find_public : List PublicNodeConfig → Str → Result (Str × ℕ)
find_public [] moniker = err key_error
find_public (n ∷ ns) moniker =
    let rest = find_public ns moniker in
    if eqb n.moniker moniker then ok (codes "127.0.0.1", n.port) else rest

unfoldable pub find_follow : List FollowNodeConfig → List PublicNodeConfig → Str → Result (Str × ℕ)
find_follow [] ns moniker = find_public ns moniker
find_follow (f ∷ fs) ns moniker =
    let rest = find_follow fs ns moniker in
    if eqb f.moniker moniker then ok (codes "127.0.0.1", f.port) else rest

-- its loop over validators, and the whole.
unfoldable pub find_validator :
    List ValidatorConfig → List FollowNodeConfig → List PublicNodeConfig → Str → Result (Str × ℕ)
find_validator [] fs ns moniker = find_follow fs ns moniker
find_validator (v ∷ vs) fs ns moniker =
    let rest = find_validator vs fs ns moniker in
    if eqb v.moniker moniker then ok (v.host, v.base_port) else rest

unfoldable pub find_rpc_endpoint : DevnetConfig → Str → Result (Str × ℕ)
find_rpc_endpoint c moniker =
    find_validator c.validators c.docker.follow_nodes c.docker.public_nodes moniker

-- `node_rpc_url`
unfoldable pub node_rpc_url : DevnetConfig → Str → Result Str
node_rpc_url c moniker = do
  (host, base_port) ← find_rpc_endpoint c moniker
  ok (codes "http://" ++ socket_text host (http_rpc_port base_port))

-- `node_ws_url`
unfoldable pub node_ws_url : DevnetConfig → Str → Result Str
node_ws_url c moniker = do
  (host, base_port) ← find_rpc_endpoint c moniker
  ok (codes "ws://" ++ socket_text host (ws_rpc_port base_port))
