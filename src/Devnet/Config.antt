-- ===== src/Devnet/Config.antt =====
-- The classes of tempo/devnet/config.py for single nodes and their dictionary forms. A
-- dictionary is the values of the keys that the class reads, none where a key is missing.
use tempo_py.Prelude.{
  ℕ, ◌+◌, ◌/◌, ◌%◌, ◌≡◌, ◌≢◌, refl, sym, [], ◌∷◌, ◌++◌, not, if◌then◌else◌, Option, none, some,
  Bool-cases, inl, inr,
}
use tempo_py.Prelude.{Result, ok, err, key_error, ◌>>=◌}
use tempo_py.Python.Text.{decimal}
use tempo_py.Python.Bytes.{Str, codes, eqb, eqb→eq}

pub record ValidatorConfig : Type 0 where
  pub host : Str
  pub port : ℕ
  pub moniker : Str
  pub base_port : ℕ
  pub p2p_host : Str
  pub rpc_host : Str

abbrev any_interface : Str
any_interface = codes "0.0.0.0"

abbrev pub or_default {ℓ} : {A : Type ℓ} → Option A → A → A
or_default none default = default
or_default (some a) default = a

-- `moniker or f"node{port // 10 % 10}"`
unfoldable pub name_or_default : Str → ℕ → Str
name_or_default [] port = codes "node" ++ ((b'0' + port / 10 % 10) ∷ [])
name_or_default (c ∷ cs) port = c ∷ cs

-- `ValidatorConfig.__init__`
unfoldable pub new_validator : Str → ℕ → Str → Option ℕ → Option Str → Option Str → ValidatorConfig
new_validator host port moniker base_port p2p_host rpc_host = record {
  host = host;
  port = port;
  moniker = name_or_default moniker port;
  base_port = or_default base_port port;
  p2p_host = or_default p2p_host host;
  rpc_host = or_default rpc_host any_interface;
}

-- `ValidatorConfig.to_validator_arg`, and `ValidatorConfig.addr_str`, which is the same text.
unfoldable pub validator_arg : ValidatorConfig → Str
validator_arg v = v.host ++ (codes ":" ++ decimal v.port)

pub record ValidatorDict : Type 0 where
  pub host : Option Str
  pub port : Option ℕ
  pub moniker : Option Str
  pub base_port : Option ℕ
  pub p2p_host : Option Str
  pub rpc_host : Option Str

-- `ValidatorConfig.to_dict`
unfoldable pub validator_to_dict : ValidatorConfig → ValidatorDict
validator_to_dict v = record {
  host = some v.host;
  port = some v.port;
  moniker = some v.moniker;
  base_port = some v.base_port;
  p2p_host = if not (eqb v.p2p_host v.host) then some v.p2p_host else none;
  rpc_host = if not (eqb v.rpc_host any_interface) then some v.rpc_host else none;
}

-- `ValidatorConfig.from_dict`
unfoldable pub validator_from_dict : ValidatorDict → ValidatorConfig
validator_from_dict d =
    new_validator (or_default d.host (codes "127.0.0.1"))
      (or_default d.port (or_default d.base_port 8000)) (or_default d.moniker (codes ""))
      d.base_port d.p2p_host d.rpc_host

name_or_default_lem : (name : Str) (port : ℕ) → name ≢ [] → name_or_default name port ≡ name
unfolding name_or_default
name_or_default_lem [] port h = absurd (h refl)
name_or_default_lem (c ∷ cs) port h = refl

pub named : (name : Str) (port : ℕ) → name_or_default name port ≢ []
unfolding name_or_default
named [] port h = cc
named (c ∷ cs) port h = cc

-- A value that is left out where it is the default is read back as the default.
pub or_default-left_out :
    (a default : Str) → or_default (if not (eqb a default) then some a else none) default ≡ a
or_default-left_out a default = elim (Bool-cases (eqb a default)) [
  | inl e ↦ rw e (sym (eqb→eq a default e))
  | inr e ↦ rw e
]

-- A validator that has a name is read back from its dictionary as it was.
pub named_round_trip :
    (v : ValidatorConfig) → v.moniker ≢ [] → validator_from_dict (validator_to_dict v) ≡ v
unfolding validator_from_dict validator_to_dict new_validator
named_round_trip v h = rw (
  name_or_default_lem v.moniker v.port h,
  or_default-left_out v.p2p_host v.host,
  or_default-left_out v.rpc_host any_interface,
)

-- Every validator that the constructor makes, its name left empty or not, is read back from its
-- dictionary as it was.
pub validator_from_dict-validator_to_dict :
    (host : Str) (port : ℕ) (moniker : Str) (base_port : Option ℕ) (p2p_host rpc_host : Option Str)
    → let v = new_validator host port moniker base_port p2p_host rpc_host in
      validator_from_dict (validator_to_dict v) ≡ v
validator_from_dict-validator_to_dict host port moniker base_port p2p_host rpc_host =
    named_round_trip (new_validator host port moniker base_port p2p_host rpc_host)
      (unfold new_validator in named moniker port)

-- `FollowNodeConfig`
pub record FollowNodeConfig : Type 0 where
  pub moniker : Str
  pub port : ℕ

-- `P2PProxyConfig`
pub record P2pProxyConfig : Type 0 where
  pub moniker : Str
  pub port : ℕ

pub record NodeDict : Type 0 where
  pub moniker : Option Str
  pub port : Option ℕ

-- `d[key]`
unfoldable pub required : Option Str → Result Str
required none = err key_error
required (some s) = ok s

unfoldable pub follow_to_dict : FollowNodeConfig → NodeDict
follow_to_dict v = record { moniker = some v.moniker; port = some v.port }

unfoldable pub follow_from_dict : NodeDict → Result FollowNodeConfig
unfolding required
follow_from_dict d = do
  moniker ← required d.moniker
  ok (record { moniker = moniker; port = or_default d.port 9000 })

unfoldable pub proxy_to_dict : P2pProxyConfig → NodeDict
proxy_to_dict v = record { moniker = some v.moniker; port = some v.port }

unfoldable pub proxy_from_dict : NodeDict → Result P2pProxyConfig
unfolding required
proxy_from_dict d = do
  moniker ← required d.moniker
  ok (record { moniker = moniker; port = or_default d.port 7000 })

-- `PublicNodeConfig`
pub record PublicNodeConfig : Type 0 where
  pub moniker : Str
  pub port : ℕ

unfoldable pub public_to_dict : PublicNodeConfig → NodeDict
public_to_dict v = record { moniker = some v.moniker; port = some v.port }

unfoldable pub public_from_dict : NodeDict → Result PublicNodeConfig
unfolding required
public_from_dict d = do
  moniker ← required d.moniker
  ok (record { moniker = moniker; port = or_default d.port 6000 })

-- Follow nodes, proxies and public nodes are read back from their dictionaries as they were, and a
-- dictionary without a moniker raises KeyError for all.
pub node_round_trips :
    (v : FollowNodeConfig) (p : P2pProxyConfig) (n : PublicNodeConfig) (port : Option ℕ)
    → let unnamed : NodeDict = record { moniker = none; port = port } in
      (follow_from_dict (follow_to_dict v) ≡ ok v)
      × (proxy_from_dict (proxy_to_dict p) ≡ ok p)
      × (public_from_dict (public_to_dict n) ≡ ok n)
      × (follow_from_dict unnamed ≡ err key_error)
      × (proxy_from_dict unnamed ≡ err key_error)
      × (public_from_dict unnamed ≡ err key_error)
unfolding follow_from_dict follow_to_dict proxy_from_dict proxy_to_dict public_from_dict
    public_to_dict
node_round_trips v p n port = (refl, refl, refl, refl, refl, refl)
