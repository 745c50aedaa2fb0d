-- ===== src/Devnet/Docker/Plans.antt =====
-- The services of a Compose file: each plan returns where its addresses are there.
use tempo_py.Prelude.{
  ℕ, ◌+◌, ◌<◌, ◌≤◌, length, arith, sym, subst, ◌>>=◌, ◌≡◌, refl, ap, ◌∙◌, List, [], ◌∷◌, Result,
  err, index_error,
}
use tempo_py.Python.Bytes.{Str}
use tempo_py.Devnet.Config.{ValidatorConfig, FollowNodeConfig, P2pProxyConfig, PublicNodeConfig}
use tempo_py.Devnet.DevnetConfig.{DevnetConfig, two_network}
use tempo_py.Devnet.DevnetConfig.Genesis.{Ipaddress, docker_ip, docker_public_ip}
use tempo_py.Devnet.Backends.{common_node_args}
use tempo_py.Devnet.Docker.Commands.{
  Enodes, docker_node_command, docker_node_two_network_command, docker_follow_node_command,
  docker_p2p_proxy_command, docker_public_node_command, follow_node_args,
}
use tempo_py.Devnet.Docker.{
  docker_run_script, first_follow, single_network_plan, validator_plan, follow_plan, proxy_plan,
  public_plan, single_network_compose, two_network_compose,
}
use tempo_py.Devnet.Docker.Succeeds.{
  >>=-Succeeds, >>=-IsCommand, >>=-err, Succeeds, add_services-Succeeds, script-Succeeds, raised,
  add_services-none, add_services-raised, IsCommand, command-Succeeds,
}

-- The number of services in the network of the validators: they, the follow nodes and the proxies.
abbrev pub private_count : DevnetConfig → ℕ
private_count c = length c.validators + length c.docker.follow_nodes + length c.docker.p2p_proxies

-- The number of all services.
abbrev pub service_count : DevnetConfig → ℕ
service_count c = private_count c + length c.docker.public_nodes

-- The subnets of the configuration are subnets and have room for its services: there is an address
-- for each number of a service in the network of the validators, and where there are two networks
-- for each number of another service in the public one.
pub record IsTotal (ip : Ipaddress) (c : DevnetConfig) : Type 0 where
  pub ip_at : (i : ℕ) → i < private_count c → Succeeds (docker_ip ip c i)
  pub public_ip_at :
      (i : ℕ)
      → length c.validators ≤ i
      → i < service_count c
      → c.docker.topology ≡ two_network
      → Succeeds (docker_public_ip ip c i)

module _ (ip : Ipaddress) (c : DevnetConfig) (enodes : Enodes) (total : IsTotal ip c) where
  abbrev private : ℕ
  private = private_count c

  abbrev count : ℕ
  count = service_count c

  abbrev start : ℕ
  start = length c.validators

  single_total :
      (i : ℕ) (x : ValidatorConfig)
      → 0 ≤ i
      → i < private
      → Succeeds (single_network_plan ip c enodes i x)
  unfolding single_network_plan docker_node_command common_node_args
  single_total i x low h =
      >>=-Succeeds _ _ (script-Succeeds c.tempo_bin _)
        (λ script. >>=-Succeeds _ _ (total.ip_at i h) (λ a. (_, refl)))

  validator-IsCommand :
      (i : ℕ) (x : ValidatorConfig)
      → i < private
      → IsCommand (docker_node_two_network_command ip c enodes x i)
  unfolding docker_node_two_network_command common_node_args
  validator-IsCommand i x h =
      >>=-IsCommand (docker_ip ip c i) (λ a. c.tempo_bin) _ (total.ip_at i h)

  follow-IsCommand : 0 < private → IsCommand (docker_follow_node_command ip c enodes)
  unfolding docker_follow_node_command follow_node_args
  follow-IsCommand h = >>=-IsCommand (docker_ip ip c 0) (λ a. c.tempo_bin) _ (total.ip_at 0 h)

  proxy-IsCommand : 0 < private → IsCommand (docker_p2p_proxy_command ip c)
  unfolding docker_p2p_proxy_command
  proxy-IsCommand h = >>=-IsCommand (docker_ip ip c 0) (λ a. c.tempo_bin) _ (total.ip_at 0 h)

  validator_total :
      (i : ℕ) (x : ValidatorConfig)
      → 0 ≤ i
      → i < private
      → Succeeds (validator_plan ip c enodes i x)
  unfolding validator_plan
  validator_total i x low h =
      command-Succeeds _ _ (validator-IsCommand i x h)
        (λ script. >>=-Succeeds _ _ (total.ip_at i h) (λ a. (_, refl)))

  public_script : Succeeds (docker_run_script (docker_public_node_command c enodes))
  unfolding docker_public_node_command follow_node_args
  public_script = script-Succeeds c.tempo_bin _

  module _ (two : c.docker.topology ≡ two_network) where
    both_networks :
        {A : Type 0} (i : ℕ) (f : Str → Str → Result A)
        → start ≤ i
        → i < private
        → ((a b : Str) → Succeeds (f a b))
        → Succeeds (docker_ip ip c i >>= λ a. docker_public_ip ip c i >>= λ b. f a b)
    both_networks i f low h returns =
        >>=-Succeeds _ _ (total.ip_at i h) (λ a.
          >>=-Succeeds _ _ (total.public_ip_at i low (omega (arith, h)) two) (λ b. returns a b))

    follow_total :
        (i : ℕ) (x : FollowNodeConfig)
        → start ≤ i
        → i < private
        → Succeeds (follow_plan ip c enodes i x)
    unfolding follow_plan
    follow_total i x low h =
        command-Succeeds _ _ (follow-IsCommand (omega (arith, h)))
          (λ script. both_networks i _ low h (λ a b. (_, refl)))

    proxy_total :
        (i : ℕ) (x : P2pProxyConfig)
        → start ≤ i
        → i < private
        → Succeeds (proxy_plan ip c enodes i x)
    unfolding proxy_plan
    proxy_total i x low h =
        command-Succeeds _ _ (proxy-IsCommand (omega (arith, h)))
          (λ script. both_networks i _ low h (λ a b. (_, refl)))

    pub public_total :
        (f : FollowNodeConfig) (fs : List FollowNodeConfig)
        → c.docker.follow_nodes ≡ f ∷ fs
        → (i : ℕ) (x : PublicNodeConfig) → start ≤ i
        → i < count
        → Succeeds (public_plan ip c enodes i x)
    unfolding public_plan
    public_total f fs e i x low h = >>=-Succeeds _ _ public_script (λ script.
        >>=-Succeeds _ _ (total.public_ip_at i low h two) (λ b.
          >>=-Succeeds _ _
            (f.moniker, ap (first_follow ip c enodes) e ∙ unfold first_follow in refl)
            (λ u. (_, refl))))

    pub two_network_total :
        ((i : ℕ) (x : PublicNodeConfig)
          → start ≤ i
          → i < count
          → Succeeds (public_plan ip c enodes i x))
        → Succeeds (two_network_compose ip c enodes)
    unfolding two_network_compose
    two_network_total publics =
        >>=-Succeeds _ _
          (add_services-Succeeds _ 0 private validator_total 0 c.validators _ (omega arith)
            (omega arith))
          (λ v.
            >>=-Succeeds _ _
              (add_services-Succeeds _ start private follow_total _ c.docker.follow_nodes v
                (omega arith) (omega arith))
              (λ f.
                >>=-Succeeds _ _
                  (add_services-Succeeds _ start private proxy_total _ c.docker.p2p_proxies f
                    (omega arith) (omega arith))
                  (λ p.
                    add_services-Succeeds _ start count publics _ c.docker.public_nodes p
                      (omega arith) (omega arith))))

    pub two_network_closed : c.docker.public_nodes ≡ [] → Succeeds (two_network_compose ip c enodes)
    unfolding two_network_compose
    two_network_closed none_public =
        >>=-Succeeds _ _
          (add_services-Succeeds _ 0 private validator_total 0 c.validators _ (omega arith)
            (omega arith))
          (λ v.
            >>=-Succeeds _ _
              (add_services-Succeeds _ start private follow_total _ c.docker.follow_nodes v
                (omega arith) (omega arith))
              (λ f.
                >>=-Succeeds _ _
                  (add_services-Succeeds _ start private proxy_total _ c.docker.p2p_proxies f
                    (omega arith) (omega arith))
                  (λ p. add_services-none _ _ c.docker.public_nodes p none_public)))

    public_fails :
        c.docker.follow_nodes ≡ []
        → (i : ℕ) (x : PublicNodeConfig) → start ≤ i
        → i < count
        → public_plan ip c enodes i x ≡ err index_error
    unfolding public_plan
    public_fails lone i x low h = >>=-err _ _ public_script (λ script.
        >>=-err _ _ (total.public_ip_at i low h two)
          (λ b. raised _ _ (ap (first_follow ip c enodes) lone ∙ unfold first_follow in refl)))

    pub two_network_fails :
        (n : PublicNodeConfig) (ns : List PublicNodeConfig)
        → c.docker.public_nodes ≡ n ∷ ns
        → c.docker.follow_nodes ≡ []
        → two_network_compose ip c enodes ≡ err index_error
    unfolding two_network_compose
    two_network_fails n ns has lone =
        let room : 1 ≤ length c.docker.public_nodes =
          subst (λ (l : List PublicNodeConfig). 1 ≤ length l) (sym has) (omega arith) in
        >>=-err _ _
          (add_services-Succeeds _ 0 private validator_total 0 c.validators _ (omega arith)
            (omega arith))
          (λ v.
            >>=-err _ _
              (add_services-Succeeds _ start private follow_total _ c.docker.follow_nodes v
                (omega arith) (omega arith))
              (λ f.
                >>=-err _ _
                  (add_services-Succeeds _ start private proxy_total _ c.docker.p2p_proxies f
                    (omega arith) (omega arith))
                  (λ p.
                    add_services-raised _ _ n ns c.docker.public_nodes p has
                      (public_fails lone _ n (omega arith) (omega (arith, room))))))

  pub single_network_total : Succeeds (single_network_compose ip c enodes)
  unfolding single_network_compose
  single_network_total =
      add_services-Succeeds _ 0 private single_total 0 c.validators _ (omega arith) (omega arith)
