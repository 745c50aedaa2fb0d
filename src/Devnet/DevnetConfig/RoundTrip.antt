-- ===== src/Devnet/DevnetConfig/RoundTrip.antt =====
-- A configuration is read back from the data that it writes.
use tempo_py.Prelude.{
  ℕ, ◌≡◌, ◌≢◌, refl, Bool, true, false, List, [], ◌∷◌, map, Option, none, some, Result, ok,
  >>=-eq-ok, ok-injective, traverse, subst, All, arith,
}
use tempo_py.Python.Bytes.{Str, codes}
use tempo_py.Devnet.Yaml.{Entries, empty, entry, mapping_of, flags, strings-texts}
use tempo_py.Devnet.Config.{
  ValidatorConfig, ValidatorDict, validator_from_dict, validator_to_dict, follow_from_dict,
  follow_to_dict, proxy_from_dict, proxy_to_dict, public_from_dict, public_to_dict, or_default,
  or_default-left_out, named_round_trip, named, new_validator,
}
use tempo_py.Devnet.DevnetConfig.{
  NetworkDict, DockerDict, DevnetData, single, two_network, DockerConfig, DevnetConfig,
  default_backend, default_bin, default_xtask, network_or, docker_section, single_docker,
  two_network_docker, init_docker, raw_validators, new_devnet,
}
use tempo_py.Devnet.DevnetConfig.ToDict.{
  public_network_name, public_subnet_cidr, validator_network_name, docker_to_dict, flag_value,
  mapping_value, flags_value, hardfork_value, devnet_to_dict,
}

-- The same networks with the names and subnets written out that a missing key stands for.
abbrev pub normalised_docker : DockerConfig → DockerConfig
normalised_docker d = elim (d.topology) [
  | two_network ↦ record d {
    validator_network = record {
      name = some (validator_network_name d);
      subnet = some d.subnet;
      has_other = false;
    };
    public_network = record {
      name = some (public_network_name d);
      subnet = some (public_subnet_cidr d);
      has_other = false;
    };
  }
  | single ↦ d
]

-- `to_dict` does not write the names of the binaries.
abbrev pub normalised : DevnetConfig → DevnetConfig
normalised c = record c {
  tempo_bin = default_bin c.backend;
  tempo_xtask_bin = default_xtask c.backend;
  docker = normalised_docker c.docker;
}

traverse-map {ℓ κ} :
    {A : Type ℓ} {B : Type κ} (f : B → Result A) (g : A → B)
    → ((a : A) → f (g a) ≡ ok a)
    → (xs : List A) → traverse f (map g xs) ≡ ok xs
traverse-map f g h [] = refl
traverse-map f g h (x ∷ xs) = rw (h x, traverse-map f g h xs)

or_default_idem : (o : Option Str) (s : Str) → or_default o (or_default o s) ≡ or_default o s
or_default_idem none s = refl
or_default_idem (some x) s = refl

-- Docker settings whose validator network, if it has a name, has the name that peers use.
abbrev IsNamed : DockerConfig → Type 0
IsNamed k = (k.topology ≡ two_network) × (or_default k.validator_network.name k.network ≡ k.network)

two_network_docker-IsNamed :
    (d : DockerDict) (base k : DockerConfig) → two_network_docker d base ≡ ok k → IsNamed k
unfolding two_network_docker
two_network_docker-IsNamed d base k h =
    let (fs, _, h1) = >>=-eq-ok (traverse follow_from_dict d.follow_nodes) _ h in
    let (ps, _, h2) = >>=-eq-ok (traverse proxy_from_dict d.p2p_proxies) _ h1 in
    let (ns, _, h3) = >>=-eq-ok (traverse public_from_dict d.public_nodes) _ h2 in
    let network : NetworkDict =
      network_or d.validator_network
        (record { name = some base.network; subnet = some base.subnet; has_other = false }) in
    subst IsNamed (ok-injective h3)
      (refl, or_default_idem network.name (codes "tempo-validator-net"))

read_back :
    (k : DockerConfig) → IsNamed k → init_docker (docker_to_dict k) ≡ ok (normalised_docker k)
unfolding init_docker two_network_docker docker_to_dict validator_network_name network_or
    single_docker
read_back k h = rw (h.0) (
    rw (
      traverse-map follow_from_dict follow_to_dict
          (λ x. unfold follow_from_dict follow_to_dict in refl) k.follow_nodes,
      traverse-map proxy_from_dict proxy_to_dict (λ x. unfold proxy_from_dict proxy_to_dict in refl)
          k.p2p_proxies,
      traverse-map public_from_dict public_to_dict
          (λ x. unfold public_from_dict public_to_dict in refl) k.public_nodes,
      h.1,
    ))

docker_round_trip :
    (d : DockerDict) (k : DockerConfig)
    → init_docker d ≡ ok k
    → init_docker (docker_to_dict k) ≡ ok (normalised_docker k)
docker_round_trip d k h = go d.validator_network d.public_network (unfold init_docker in h)
  where
    by_cases : Option (Option NetworkDict) → Option (Option NetworkDict) → Result DockerConfig
    by_cases v p = elim v [
      | some _ ↦ two_network_docker d (single_docker d)
      | none ↦ elim p [
        | some _ ↦ two_network_docker d (single_docker d)
        | none ↦ ok (single_docker d)
      ]
    ]

    go :
        (v p : Option (Option NetworkDict))
        → by_cases v p ≡ ok k
        → init_docker (docker_to_dict k) ≡ ok (normalised_docker k)
    go (some v) p e = read_back k (two_network_docker-IsNamed d _ k e)
    go none (some p) e = read_back k (two_network_docker-IsNamed d _ k e)
    go none none e =
        subst (λ x. init_docker (docker_to_dict x) ≡ ok (normalised_docker x)) (ok-injective e)
          (unfold init_docker docker_to_dict single_docker in refl)

-- What the constructor establishes.
record IsParsed (c : DevnetConfig) : Type 0 where
  validators : c.validators ≢ []
  all_named : All (λ (v : ValidatorConfig). v.moniker ≢ []) c.validators
  docker : init_docker (docker_to_dict c.docker) ≡ ok (normalised_docker c.docker)

from_dict-named : (d : ValidatorDict) → (validator_from_dict d).moniker ≢ []
unfolding validator_from_dict new_validator
from_dict-named d = named _ _

All-from_dict :
    (ds : List ValidatorDict)
    → All (λ (v : ValidatorConfig). v.moniker ≢ []) (map validator_from_dict ds)
All-from_dict [] = tt
All-from_dict (d ∷ ds) = (from_dict-named d, All-from_dict ds)

raw_validators-some : (ds : List ValidatorDict) → map validator_from_dict (raw_validators ds) ≢ []
unfolding raw_validators
raw_validators-some [] h = cc
raw_validators-some (d ∷ ds) h = cc

new_devnet-IsParsed : (d : DevnetData) (c : DevnetConfig) → new_devnet d ≡ ok c → IsParsed c
unfolding new_devnet
new_devnet-IsParsed d c h =
    let (_, _, h1) = >>=-eq-ok (mapping_of d.patch_genesis) _ h in
    let (_, _, h2) = >>=-eq-ok (mapping_of d.patch_reth) _ h1 in
    let (_, _, h3) = >>=-eq-ok (flags d.patch_node_flags) _ h2 in
    let (_, _, h4) = >>=-eq-ok (flags d.patch_genesis_flags) _ h3 in
    let (raw, _, h5) = >>=-eq-ok (docker_section d.docker) _ h4 in
    let (k, made, h6) = >>=-eq-ok (init_docker raw) _ h5 in
    subst IsParsed (ok-injective h6) (record {
      validators = raw_validators-some d.validators;
      all_named = All-from_dict (raw_validators d.validators);
      docker = docker_round_trip raw k made;
    })

mapping_round_trip : (es : Entries) → mapping_of (mapping_value es) ≡ ok es
unfolding mapping_of
mapping_round_trip empty = refl
mapping_round_trip (entry k v es) = refl

flags_round_trip : (ss : List Str) → flags (flags_value ss) ≡ ok ss
unfolding flags
flags_round_trip [] = refl
flags_round_trip (s ∷ ss) = strings-texts (s ∷ ss)

flag_round_trip : (b : Bool) → or_default (flag_value b) false ≡ b
flag_round_trip true = refl
flag_round_trip false = refl

hardforks_round_trip : (hs : List ℕ) → map (λ o. or_default o 0) (map hardfork_value hs) ≡ hs
hardforks_round_trip [] = refl
hardforks_round_trip (h ∷ hs) = ground (arith, one, hardforks_round_trip hs)
  where
    one : or_default (hardfork_value h) 0 ≡ h
    one = ground arith

validators_round_trip :
    (vs : List ValidatorConfig)
    → vs ≢ []
    → All (λ (v : ValidatorConfig). v.moniker ≢ []) vs
    → map validator_from_dict (raw_validators (map validator_to_dict vs)) ≡ vs
unfolding raw_validators
validators_round_trip [] some_v h = absurd (some_v refl)
validators_round_trip (v ∷ vs) some_v h = go (v ∷ vs) h
  where
    go :
        (vs : List ValidatorConfig)
        → All (λ (v : ValidatorConfig). v.moniker ≢ []) vs
        → map validator_from_dict (map validator_to_dict vs) ≡ vs
    go [] h = refl
    go (v ∷ vs) h = cc (named_round_trip v h.0, go vs h.1)

-- Whatever data a configuration was read from, the data that `to_dict` writes is read without an
-- exception, as the same configuration but for the two binaries, which get the names that follow
-- from the backend, and with the names and subnets of the Docker networks written out.
pub new_devnet-devnet_to_dict :
    (d : DevnetData) (c : DevnetConfig)
    → new_devnet d ≡ ok c
    → new_devnet (devnet_to_dict c) ≡ ok (normalised c)
unfolding new_devnet devnet_to_dict
new_devnet-devnet_to_dict d c h =
    let parsed = new_devnet-IsParsed d c h in
    rw (
      mapping_round_trip c.patch_genesis,
      mapping_round_trip c.patch_reth,
      flags_round_trip c.patch_node_flags,
      flags_round_trip c.patch_genesis_flags,
      parsed.docker,
      or_default-left_out c.backend default_backend,
      flag_round_trip c.no_dkg_in_genesis,
      flag_round_trip c.no_extra_tokens,
      flag_round_trip c.no_pairwise_liquidity,
      hardforks_round_trip c.hardforks,
      validators_round_trip c.validators parsed.validators parsed.all_named,
    )
