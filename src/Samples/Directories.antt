-- ===== src/Samples/Directories.antt =====
-- A data directory with two node directories and other entries.
use tempo_py.Prelude.{◌≡◌, refl, Bool, List, [], ◌∷◌, true, false, none, ok}
use tempo_py.Python.Bytes.{Str, codes}
use tempo_py.Devnet.DevnetConfig.{DevnetConfig}
use tempo_py.Devnet.Enode.{starts_with}
use tempo_py.Devnet.Cluster.Directories.{
  leb_str, place, sorted, node_names, node_dirs, cluster_config,
}
use tempo_py.Devnet.Cluster.Directories.Detected.{Detection, cluster_config-detected}

abbrev entries : List (Str × Bool)
entries =
    (codes "node2", true)
    ∷ (codes "genesis.json", false)
    ∷ (codes "node10", true)
    ∷ (codes "logs", true)
    ∷ []

in_text_order : node_dirs entries ≡ codes "node10" ∷ codes "node2" ∷ []
unfolding node_dirs sorted node_names place leb_str starts_with
in_text_order = refl

cluster_config-detected_example :
    (c : DevnetConfig) × (cluster_config none none entries ≡ ok c) × Detection entries c
cluster_config-detected_example =
    cluster_config-detected entries []
      ((codes "genesis.json", false) ∷ (codes "node10", true) ∷ (codes "logs", true) ∷ [])
      (codes "2") refl
