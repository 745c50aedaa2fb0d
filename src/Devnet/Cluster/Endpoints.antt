-- ===== src/Devnet/Cluster/Endpoints.antt =====
-- The addresses that `_find_rpc_endpoint` finds, against the list of all nodes.
use tempo_py.Prelude.{
  ◌⊎◌, ℕ, ◌≡◌, ◌≢◌, refl, ◌∙◌, if◌then◌else◌, List, [], ◌∷◌, ◌++◌, map, Result, ok, err, key_error,
  All, Bool-cases, inl, inr,
}
use tempo_py.Python.Bytes.{Str, codes, eqb, eqb_refl, eqb→eq}
use tempo_py.Devnet.Config.{ValidatorConfig, FollowNodeConfig, PublicNodeConfig}
use tempo_py.Devnet.DevnetConfig.{DevnetConfig}
use tempo_py.Devnet.Cluster.{find_public, find_follow, find_validator, find_rpc_endpoint}

-- A moniker with the host and the base port.
abbrev pub Endpoint : Type 0
Endpoint = Str × (Str × ℕ)

abbrev pub endpoints : DevnetConfig → List Endpoint
endpoints c =
    map (λ (v : ValidatorConfig). (v.moniker, (v.host, v.base_port))) c.validators
    ++ (map (λ (f : FollowNodeConfig). (f.moniker, (codes "127.0.0.1", f.port)))
          c.docker.follow_nodes
        ++ map (λ (n : PublicNodeConfig). (n.moniker, (codes "127.0.0.1", n.port)))
            c.docker.public_nodes)

-- The first with the moniker.
first : List Endpoint → Str → Result (Str × ℕ)
first [] moniker = err key_error
first (e ∷ es) moniker = let rest = first es moniker in if eqb e.0 moniker then ok e.1 else rest

-- The monikers differ.
abbrev pub AllNamed : List Endpoint → Type 0
AllNamed [] = Unit
AllNamed (e ∷ es) = All (λ (f : Endpoint). e.0 ≢ f.0) es × AllNamed es

publics :
    (ns : List PublicNodeConfig) (moniker : Str)
    → find_public ns moniker
      ≡ first (map (λ (n : PublicNodeConfig). (n.moniker, (codes "127.0.0.1", n.port))) ns) moniker
unfolding find_public first
publics [] moniker = refl
publics (n ∷ ns) moniker = rw (publics ns moniker)

follows :
    (fs : List FollowNodeConfig) (ns : List PublicNodeConfig) (moniker : Str)
    → find_follow fs ns moniker
      ≡ first
          (map (λ (f : FollowNodeConfig). (f.moniker, (codes "127.0.0.1", f.port))) fs
            ++ map (λ (n : PublicNodeConfig). (n.moniker, (codes "127.0.0.1", n.port))) ns)
          moniker
unfolding find_follow first
follows [] ns moniker = publics ns moniker
follows (f ∷ fs) ns moniker = rw (follows fs ns moniker)

validators :
    (vs : List ValidatorConfig) (fs : List FollowNodeConfig) (ns : List PublicNodeConfig)
    (moniker : Str)
    → find_validator vs fs ns moniker
      ≡ first
          (map (λ (v : ValidatorConfig). (v.moniker, (v.host, v.base_port))) vs
            ++ (map (λ (f : FollowNodeConfig). (f.moniker, (codes "127.0.0.1", f.port))) fs
                ++ map (λ (n : PublicNodeConfig). (n.moniker, (codes "127.0.0.1", n.port))) ns))
          moniker
unfolding find_validator first
validators [] fs ns moniker = follows fs ns moniker
validators (v ∷ vs) fs ns moniker = rw (validators vs fs ns moniker)

listed :
    (c : DevnetConfig) (moniker : Str) → find_rpc_endpoint c moniker ≡ first (endpoints c) moniker
unfolding find_rpc_endpoint
listed c moniker = validators c.validators c.docker.follow_nodes c.docker.public_nodes moniker

-- The moniker is that of one of them.
abbrev pub Known : Str → List Endpoint → Type 0
Known moniker [] = ⊥
Known moniker (e ∷ es) = (e.0 ≡ moniker) ⊎ Known moniker es

first-Known :
    (es : List Endpoint) (moniker : Str) → Known moniker es ⊎ (first es moniker ≡ err key_error)
unfolding first
first-Known [] moniker = inr refl
first-Known (e ∷ es) moniker = elim (Bool-cases (eqb e.0 moniker)) [
  | inl same ↦ inl (inl (eqb→eq e.0 moniker same))
  | inr other ↦ elim (first-Known es moniker) [
    | inl known ↦ inl (inr known)
    | inr missing ↦ inr (rw other missing)
  ]
]

first-own : (es : List Endpoint) → AllNamed es → All (λ (e : Endpoint). first es e.0 ≡ ok e.1) es
unfolding first
first-own [] h = tt
first-own (e ∷ es) h = (rw (eqb_refl e.0) refl, later es h.0 (first-own es h.1))
  where
    later :
        (fs : List Endpoint)
        → All (λ (f : Endpoint). e.0 ≢ f.0) fs
        → All (λ (f : Endpoint). first es f.0 ≡ ok f.1) fs
        → All (λ (f : Endpoint). first (e ∷ es) f.0 ≡ ok f.1) fs
    later [] new own = tt
    later (f ∷ fs) new own = (
      elim (Bool-cases (eqb e.0 f.0)) [
        | inl same ↦ absurd (new.0 (eqb→eq e.0 f.0 same))
        | inr other ↦ rw other (own.0)
      ],
      later fs new.1 own.1,
    )

All-listed :
    (c : DevnetConfig) (es : List Endpoint)
    → All (λ (e : Endpoint). first (endpoints c) e.0 ≡ ok e.1) es
    → All (λ (e : Endpoint). find_rpc_endpoint c e.0 ≡ ok e.1) es
All-listed c [] h = tt
All-listed c (e ∷ es) h = (listed c e.0 ∙ h.0, All-listed c es h.1)

-- Where the monikers of the validators, follow nodes and public nodes differ: each of these nodes
-- is found under its moniker at its own host and base port, a follow or public node at 127.0.0.1,
-- and a moniker that none of them has raises KeyError.
pub find_rpc_endpoint-own :
    (c : DevnetConfig) (moniker : Str)
    → AllNamed (endpoints c)
    → All (λ (e : Endpoint). find_rpc_endpoint c e.0 ≡ ok e.1) (endpoints c)
      × (Known moniker (endpoints c) ⊎ (find_rpc_endpoint c moniker ≡ err key_error))
find_rpc_endpoint-own c moniker h = (
  All-listed c (endpoints c) (first-own (endpoints c) h),
  elim (first-Known (endpoints c) moniker) [
    | inl known ↦ inl known
    | inr missing ↦ inr (listed c moniker ∙ missing)
  ],
)
