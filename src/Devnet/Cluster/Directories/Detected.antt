-- ===== src/Devnet/Cluster/Directories/Detected.antt =====
-- The configuration that is made for the directories of a data directory.
use tempo_py.Prelude.{
  ◌++◌, sym, subst, Bool-cases, inl, inr, ℕ, suc, ◌+◌, ◌*◌, ◌≡◌, ◌≢◌, refl, ap, ◌∙◌, Bool, true,
  false, ◌&&◌, if◌then◌else◌, List, [], ◌∷◌, map, none, ok, All,
}
use tempo_py.Python.Bytes.{Str, codes}
use tempo_py.Devnet.Config.{ValidatorConfig, validator_from_dict, new_validator, name_or_default}
use tempo_py.Devnet.DevnetConfig.{
  DevnetConfig, new_devnet, raw_validators, init_docker, single_docker,
}
use tempo_py.Devnet.Yaml.{mapping_of, flags}
use tempo_py.Devnet.Enode.{starts_with}
use tempo_py.Devnet.Cluster.Directories.{
  leb_str, place, sorted, node_names, node_dirs, detected_validators, detected, cluster_config,
}
use tempo_py.Devnet.Cluster.Directories.Order.{IsAscending, sorted-IsAscending, sorted-Perm}
use mathlib.Core.List.{Perm}
use tempo_py.Devnet.Cluster.Directories.Selected.{Selects, node_names-Selects, node_names-found}

abbrev Named : List Str → Type 0
Named names = All (λ s. s ≢ []) names

chosen-Named :
    (test : Bool) (xs ys : List Str)
    → (test ≡ true → Named xs)
    → Named ys
    → Named (if test then xs else ys)
chosen-Named true xs ys h k = h refl
chosen-Named false xs ys h k = k

place-Named : (x : Str) (ys : List Str) → x ≢ [] → Named ys → Named (place x ys)
unfolding place
place-Named x [] h k = (h, tt)
place-Named x (y ∷ ys) h k =
    chosen-Named (leb_str x y) (x ∷ y ∷ ys) (y ∷ place x ys) (λ e. (h, k))
      (k.0, place-Named x ys h k.1)

sorted-Named : (xs : List Str) → Named xs → Named (sorted xs)
unfolding sorted
sorted-Named [] h = tt
sorted-Named (x ∷ xs) h = place-Named x (sorted xs) h.0 (sorted-Named xs h.1)

prefixed :
    (is_dir : Bool) (name : Str) → (is_dir && starts_with (codes "node") name) ≡ true → name ≢ []
unfolding starts_with
prefixed true [] h = cc
prefixed false [] h = cc
prefixed is_dir (c ∷ cs) h = λ e. cc (e)

node_names-Named : (entries : List (Str × Bool)) → Named (node_names entries)
unfolding node_names
node_names-Named [] = tt
node_names-Named ((name, is_dir) ∷ entries) =
    chosen-Named (is_dir && starts_with (codes "node") name) (name ∷ node_names entries)
      (node_names entries) (λ e. (prefixed is_dir name e, node_names-Named entries))
      (node_names-Named entries)

place-ne : (x : Str) (ys : List Str) → place x ys ≢ []
unfolding place
place-ne x [] = λ e. cc (e)
place-ne x (y ∷ ys) = elim (Bool-cases (leb_str x y)) [
  | inl e ↦ rw e λ f. cc (f)
  | inr e ↦ rw e λ f. cc (f)
]

sorted-ne : (xs : List Str) → xs ≢ [] → sorted xs ≢ []
unfolding sorted
sorted-ne [] h = h
sorted-ne (x ∷ xs) h = place-ne x (sorted xs)

-- The ports of so many validators, from number `i` on.
abbrev pub ports_from : ℕ → List Str → List ℕ
ports_from i [] = []
ports_from i (name ∷ names) = (8000 + i * 10) ∷ ports_from (suc i) names

monikers :
    (i : ℕ) (names : List Str)
    → Named names
    → map
        (λ (v : ValidatorConfig). v.moniker)
        (map validator_from_dict (detected_validators i names))
      ≡ names
unfolding detected_validators validator_from_dict new_validator name_or_default
monikers i [] h = refl
monikers i ([] ∷ names) h = absurd (h.0 refl)
monikers i ((c ∷ cs) ∷ names) h =
    ap (λ (rest : List Str). (c ∷ cs) ∷ rest) (monikers (suc i) names h.1)

ports :
    (i : ℕ) (names : List Str)
    → map
        (λ (v : ValidatorConfig). v.base_port)
        (map validator_from_dict (detected_validators i names))
      ≡ ports_from i names
unfolding detected_validators validator_from_dict new_validator
ports i [] = refl
ports i (name ∷ names) = ap (λ (rest : List ℕ). (8000 + i * 10) ∷ rest) (ports (suc i) names)

new_devnet-detected :
    (name : Str) (names : List Str)
    → (c : DevnetConfig) × (new_devnet (detected (name ∷ names)) ≡ ok c)
      × (c.validators ≡ map validator_from_dict (detected_validators 0 (name ∷ names)))
unfolding new_devnet detected detected_validators mapping_of flags init_docker single_docker
    raw_validators
new_devnet-detected name names = (_, refl, refl)

abbrev monikers_of : DevnetConfig → List Str
monikers_of c = map (λ (v : ValidatorConfig). v.moniker) c.validators

abbrev base_ports_of : DevnetConfig → List ℕ
base_ports_of c = map (λ (v : ValidatorConfig). v.base_port) c.validators

-- A validator for each directory of a node.
pub record Detection (entries : List (Str × Bool)) (c : DevnetConfig) : Type 0 where
  pub names : List Str
  pub selected : Selects entries names
  pub same : Perm (monikers_of c) names
  pub ordered : IsAscending (monikers_of c)
  pub base_ports : base_ports_of c ≡ ports_from 0 (monikers_of c)

new_devnet-Named :
    (names : List Str)
    → Named names
    → names ≢ []
    → (c : DevnetConfig) × (new_devnet (detected names) ≡ ok c)
      × (monikers_of c ≡ names)
      × (base_ports_of c ≡ ports_from 0 names)
new_devnet-Named [] k h = absurd (h refl)
new_devnet-Named (name ∷ names) k h =
    let (c, e, vals) = new_devnet-detected name names in
    (
      c,
      e,
      ap (map (λ (v : ValidatorConfig). v.moniker)) vals ∙ monikers 0 (name ∷ names) k,
      ap (map (λ (v : ValidatorConfig). v.base_port)) vals ∙ ports 0 (name ∷ names),
    )

-- Where there is neither a configuration nor a devnet.yaml, and among the entries of the data
-- directory there is a directory whose name begins with "node": `config` makes a configuration
-- without an exception. The monikers of its validators are the names of all directories that begin
-- with "node", each as often as it is among the entries, in ascending order of the texts, and the
-- base port of validator number i is 8000 + 10 i.
pub cluster_config-detected :
    (entries before after : List (Str × Bool)) (rest : Str)
    → entries ≡ before ++ ((codes "node" ++ rest, true) ∷ after)
    → (c : DevnetConfig) × (cluster_config none none entries ≡ ok c) × Detection entries c
unfolding cluster_config node_dirs
cluster_config-detected entries before after rest at =
    let found : node_names entries ≢ [] =
      subst (λ es. node_names es ≢ []) (sym at) (node_names-found before after rest) in
    let names = sorted (node_names entries) in
    let (c, e, named, ported) =
      new_devnet-Named names (sorted-Named _ (node_names-Named entries)) (sorted-ne _ found) in
    (
      c,
      e,
      record {
        names = node_names entries;
        selected = node_names-Selects entries;
        same =
            subst (λ ms. Perm ms (node_names entries)) (sym named)
              (sorted-Perm (node_names entries));
        ordered = subst IsAscending (sym named) (sorted-IsAscending (node_names entries));
        base_ports = ported ∙ ap (ports_from 0) (sym named);
      },
    )
