-- ===== src/Devnet/Docker/Addresses.antt =====
-- No two services of a Compose file share an address.
use tempo_py.Prelude.{
  ℕ, ◌+◌, ◌≡◌, ◌≢◌, false, ok, >>=-eq-ok, ok-injective, require-eq-ok, All, Bool-cases, inl, inr,
  subst, length, if◌then◌else◌, not_implemented_error, arith,
}
use tempo_py.Python.Bytes.{Str, codes, eqb, eqb_refl, eqb→eq}
use tempo_py.Devnet.Config.{ValidatorConfig, FollowNodeConfig, P2pProxyConfig, PublicNodeConfig}
use tempo_py.Devnet.DevnetConfig.{DevnetConfig, Topology, single, two_network}
use tempo_py.Devnet.DevnetConfig.ToDict.{
  validator_network_name, public_network_name, public_subnet_cidr,
}
use tempo_py.Devnet.DevnetConfig.Genesis.{Ipaddress, docker_ip, docker_public_ip}
use tempo_py.Devnet.Docker.Commands.{
  Enodes, docker_node_command, docker_node_two_network_command, docker_follow_node_command,
  docker_p2p_proxy_command, docker_public_node_command,
}
use tempo_py.Devnet.Docker.{
  Output, Plan, two_networks, docker_run_script, first_follow, single_network_plan, validator_plan,
  follow_plan, proxy_plan, public_plan, single_network_compose, two_network_compose,
  generate_services,
}
use tempo_py.Devnet.Docker.Loop.{
  IsIpaddress, NoClash, AllPairs, Uses, IsAllocated, add_services-IsAllocated, IsAllocated-NoClash,
}

different : (x y : Str) → x ≢ y → eqb x y ≡ false
different x y h = elim (Bool-cases (eqb x y)) [ inl e ↦ absurd (h (eqb→eq x y e)) | inr e ↦ e ]

module _ (ip : Ipaddress) (c : DevnetConfig) (enodes : Enodes) where
  -- The subnet that the Compose file gives to a network.
  abbrev subnet_of : Str → Str
  subnet_of name =
      if eqb name (public_network_name c.docker)
      then public_subnet_cidr c.docker
      else c.docker.subnet

  abbrev one_subnet : Str → Str
  one_subnet name = c.docker.subnet

  abbrev IsApart : Type 0
  IsApart = eqb (validator_network_name c.docker) (public_network_name c.docker) ≡ false

  private_address :
      (i : ℕ) (a : Str)
      → IsApart
      → docker_ip ip c i ≡ ok a
      → ip.address (subnet_of (validator_network_name c.docker)) (10 + i) ≡ ok a
  unfolding docker_ip
  private_address i a apart e = rw apart e

  public_address :
      (i : ℕ) (a : Str)
      → docker_public_ip ip c i ≡ ok a
      → ip.address (subnet_of (public_network_name c.docker)) (10 + i) ≡ ok a
  unfolding docker_public_ip
  public_address i a e = rw (eqb_refl (public_network_name c.docker)) e

  single_network_plan-Uses :
      (i : ℕ) (x : ValidatorConfig) (p : Plan)
      → single_network_plan ip c enodes i x ≡ ok p
      → Uses ip one_subnet i p.service
  unfolding single_network_plan
  single_network_plan-Uses i x p h =
      let (_, _, h1) = >>=-eq-ok (docker_run_script (docker_node_command c enodes x)) _ h in
      let (a, e, h2) = >>=-eq-ok (docker_ip ip c i) _ h1 in
      subst (λ (q : Plan). Uses ip one_subnet i q.service) (ok-injective h2)
        (unfold docker_ip in e, tt)

  validator_plan-Uses :
      IsApart
      → (i : ℕ) (x : ValidatorConfig) (p : Plan) → validator_plan ip c enodes i x ≡ ok p
      → Uses ip subnet_of i p.service
  unfolding validator_plan
  validator_plan-Uses apart i x p h =
      let (args, _, h1) = >>=-eq-ok (docker_node_two_network_command ip c enodes x i) _ h in
      let (_, _, h2) = >>=-eq-ok (docker_run_script args) _ h1 in
      let (a, e, h3) = >>=-eq-ok (docker_ip ip c i) _ h2 in
      subst (λ (q : Plan). Uses ip subnet_of i q.service) (ok-injective h3)
        (private_address i a apart e, tt)

  both-Uses :
      (i : ℕ) (a b : Str)
      → IsApart
      → docker_ip ip c i ≡ ok a
      → docker_public_ip ip c i ≡ ok b
      → All
          (λ (n : Str × Str). ip.address (subnet_of n.0) (10 + i) ≡ ok n.1)
          (two_networks (validator_network_name c.docker) a (public_network_name c.docker) b)
  unfolding two_networks
  both-Uses i a b apart e f = rw apart (private_address i a apart e, (public_address i b f, tt))

  follow_plan-Uses :
      IsApart
      → (i : ℕ) (x : FollowNodeConfig) (p : Plan) → follow_plan ip c enodes i x ≡ ok p
      → Uses ip subnet_of i p.service
  unfolding follow_plan
  follow_plan-Uses apart i x p h =
      let (args, _, h1) = >>=-eq-ok (docker_follow_node_command ip c enodes) _ h in
      let (_, _, h2) = >>=-eq-ok (docker_run_script args) _ h1 in
      let (a, e, h3) = >>=-eq-ok (docker_ip ip c i) _ h2 in
      let (b, f, h4) = >>=-eq-ok (docker_public_ip ip c i) _ h3 in
      subst (λ (q : Plan). Uses ip subnet_of i q.service) (ok-injective h4)
        (both-Uses i a b apart e f)

  proxy_plan-Uses :
      IsApart
      → (i : ℕ) (x : P2pProxyConfig) (p : Plan) → proxy_plan ip c enodes i x ≡ ok p
      → Uses ip subnet_of i p.service
  unfolding proxy_plan
  proxy_plan-Uses apart i x p h =
      let (args, _, h1) = >>=-eq-ok (docker_p2p_proxy_command ip c) _ h in
      let (_, _, h2) = >>=-eq-ok (docker_run_script args) _ h1 in
      let (a, e, h3) = >>=-eq-ok (docker_ip ip c i) _ h2 in
      let (b, f, h4) = >>=-eq-ok (docker_public_ip ip c i) _ h3 in
      subst (λ (q : Plan). Uses ip subnet_of i q.service) (ok-injective h4)
        (both-Uses i a b apart e f)

  public_plan-Uses :
      (i : ℕ) (x : PublicNodeConfig) (p : Plan)
      → public_plan ip c enodes i x ≡ ok p
      → Uses ip subnet_of i p.service
  unfolding public_plan
  public_plan-Uses i x p h =
      let (_, _, h1) = >>=-eq-ok (docker_run_script (docker_public_node_command c enodes)) _ h in
      let (b, f, h2) = >>=-eq-ok (docker_public_ip ip c i) _ h1 in
      let (_, _, h3) = >>=-eq-ok (first_follow ip c enodes c.docker.follow_nodes) _ h2 in
      subst (λ (q : Plan). Uses ip subnet_of i q.service) (ok-injective h3)
        (public_address i b f, tt)

  single_network_compose-NoClash :
      (out : Output)
      → IsIpaddress ip
      → single_network_compose ip c enodes ≡ ok out
      → AllPairs NoClash out.services
  unfolding single_network_compose
  single_network_compose-NoClash out laws h =
      IsAllocated-NoClash ip one_subnet _ out.services laws (
        add_services-IsAllocated ip one_subnet _ single_network_plan-Uses 0 c.validators _ out
          (record { numbered = tt; differ = tt }) h)

  two_network_compose-NoClash :
      (out : Output)
      → IsIpaddress ip
      → IsApart
      → two_network_compose ip c enodes ≡ ok out
      → AllPairs NoClash out.services
  unfolding two_network_compose
  two_network_compose-NoClash out laws apart h =
      let start : 0 + length c.validators ≡ length c.validators = omega arith in
      let (o1, e1, h1) = >>=-eq-ok _ _ h in
      let (o2, e2, h2) = >>=-eq-ok _ _ h1 in
      let (o3, e3, h3) = >>=-eq-ok _ _ h2 in
      let n1 =
        subst (λ n. IsAllocated ip subnet_of n o1.services) start
          (add_services-IsAllocated ip subnet_of _ (validator_plan-Uses apart) 0 c.validators _ o1
            (record { numbered = tt; differ = tt }) e1) in
      let n2 =
        add_services-IsAllocated ip subnet_of _ (follow_plan-Uses apart) (length c.validators)
          c.docker.follow_nodes o1 o2 n1 e2 in
      let n3 =
        add_services-IsAllocated ip subnet_of _ (proxy_plan-Uses apart) _ c.docker.p2p_proxies o2 o3
          n2 e3 in
      IsAllocated-NoClash ip subnet_of _ out.services laws (
        add_services-IsAllocated ip subnet_of _ public_plan-Uses _ c.docker.public_nodes o3 out n3
          h3)

  -- Where different offsets in a subnet are different addresses and the two networks have different
  -- names: in every Compose file that is generated, for either topology, no two services have the
  -- same address on a network.
  pub generate_services-NoClash :
      (out : Output)
      → IsIpaddress ip
      → validator_network_name c.docker ≢ public_network_name c.docker
      → generate_services ip c enodes ≡ ok out
      → AllPairs NoClash out.services
  unfolding generate_services
  generate_services-NoClash out laws apart h =
      let (_, made) = require-eq-ok (eqb c.backend (codes "tempo")) not_implemented_error _ h in
      go c.docker.topology made
    where
      go :
          (t : Topology)
          → (elim t [
            | two_network ↦ two_network_compose ip c enodes
            | single ↦ single_network_compose ip c enodes
          ])
            ≡ ok out
          → AllPairs NoClash out.services
      go two_network e = two_network_compose-NoClash out laws (different _ _ apart) e
      go single e = single_network_compose-NoClash out laws e
