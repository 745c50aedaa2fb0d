-- ===== src/Devnet/Cluster/Directories/Selected.antt =====
-- The entries of a data directory that `node_dirs` of tempo/devnet/cluster.py takes.
use tempo_py.Prelude.{
  ◌==◌, ◌++◌, Bool-cases, inl, inr, arith, ℕ, ◌≡◌, ◌≢◌, refl, ap, Bool, true, false, ◌&&◌,
  if◌then◌else◌, List, [], ◌∷◌,
}
use tempo_py.Python.Bytes.{Str, codes}
use tempo_py.Devnet.Enode.{starts_with}
use tempo_py.Devnet.Cluster.Directories.{node_names}

-- A name that begins with "node".
abbrev pub IsNodeName : Str → Type 0
IsNodeName name = (rest : Str) × (name ≡ codes "node" ++ rest)

-- The names of the directories of the entries that begin with "node", in the order of the entries.
pub data Selects : List (Str × Bool) → List Str → Type 0 where
  nothing : Selects [] []
  kept :
      {name : Str} {entries : List (Str × Bool)} {names : List Str}
      → IsNodeName name
      → Selects entries names
      → Selects ((name, true) ∷ entries) (name ∷ names)
  not_directory :
      {name : Str} {entries : List (Str × Bool)} {names : List Str}
      → Selects entries names
      → Selects ((name, false) ∷ entries) names
  not_node :
      {name : Str} {is_dir : Bool} {entries : List (Str × Bool)} {names : List Str}
      → ¬ IsNodeName name
      → Selects entries names
      → Selects ((name, is_dir) ∷ entries) names

same_head : (p c : ℕ) (rest : Bool) → (p == c) && rest ≡ true → (c ≡ p) × (rest ≡ true)
same_head p c rest h = ground arith

starts_with-eq-true : (p s : Str) → starts_with p s ≡ true → (rest : Str) × (s ≡ p ++ rest)
unfolding starts_with
starts_with-eq-true [] s h = (s, refl)
starts_with-eq-true (p ∷ ps) [] h = cc
starts_with-eq-true (p ∷ ps) (c ∷ cs) h =
    let (same, h') = same_head p c (starts_with ps cs) h in
    let (rest, e) = starts_with-eq-true ps cs h' in (rest, cc (same, e))

starts_with-append : (p rest : Str) → starts_with p (p ++ rest) ≡ true
unfolding starts_with
starts_with-append [] rest = refl
starts_with-append (p ∷ ps) rest = rw (starts_with-append ps rest) (ground arith)

pub node_names-Selects : (entries : List (Str × Bool)) → Selects entries (node_names entries)
unfolding node_names
node_names-Selects [] = nothing
node_names-Selects ((name, false) ∷ entries) = not_directory (node_names-Selects entries)
node_names-Selects ((name, true) ∷ entries) = elim (Bool-cases (starts_with (codes "node") name)) [
  | inl e ↦ rw e (kept (starts_with-eq-true (codes "node") name e) (node_names-Selects entries))
  | inr e ↦ rw e (not_node (λ (r : IsNodeName name). refused r e) (node_names-Selects entries))
]
  where
    refused : {name : Str} → IsNodeName name → starts_with (codes "node") name ≢ false
    refused (rest, same) e =
        cc (starts_with-append (codes "node") rest, ap (starts_with (codes "node")) same, e)

pub node_names-found :
    (xs ys : List (Str × Bool)) (rest : Str)
    → node_names (xs ++ ((codes "node" ++ rest, true) ∷ ys)) ≢ []
unfolding node_names
node_names-found [] ys rest = rw (starts_with-append (codes "node") rest) λ e. cc (e)
node_names-found ((name, is_dir) ∷ xs) ys rest =
    chosen-ne (is_dir && starts_with (codes "node") name) name _ (node_names-found xs ys rest)
  where
    chosen-ne :
        (test : Bool) (n : Str) (ns : List Str) → ns ≢ [] → (if test then n ∷ ns else ns) ≢ []
    chosen-ne true n ns h = λ e. cc (e)
    chosen-ne false n ns h = h
