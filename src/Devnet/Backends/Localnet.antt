-- ===== src/Devnet/Backends/Localnet.antt =====
-- `generate_localnet` of tempo/devnet/backends.py: the generator's run, and the layout after it.
use tempo_py.Prelude.{
  ℕ, suc, ◌==◌, ◌≡◌, refl, ap, ◌∙◌, Bool, true, false, ◌&&◌, if◌then◌else◌, List, [], ◌∷◌, map,
  Option, Result, ok, err, value_error, runtime_error, ◌>>=◌, ◌>>◌, require,
}
use tempo_py.Python.Bytes.{Str, codes, eqb}
use tempo_py.Devnet.Config.{ValidatorConfig, validator_arg}
use tempo_py.Devnet.DevnetConfig.{DevnetConfig}
use tempo_py.Devnet.DevnetConfig.Genesis.{Ipaddress, docker_validator_addr}
use tempo_py.Devnet.Layout.{Dirs, prepare_layout, make_dirs}
use tempo_py.Devnet.Layout.Moves.{AllApart, arranged}
use tempo_py.Devnet.Layout.Arranged.{prepare_layout-arranged}
use tempo_py.Devnet.Backends.{Backend, tempo, allegro, get_backend, localnet_args}

-- The data directory: the directories in it, and whether it has a genesis.json.
pub record DataDir {ℓ} (D : Type ℓ) : Type ℓ where
  pub dirs : Dirs D
  pub genesis : Bool

-- The directories' contents: `empty` is a new one. `run` is `subprocess.run` of the generator,
-- with the exit code and the data directory that it leaves.
pub record Generator {ℓ} (D : Type ℓ) : Type ℓ where
  pub empty : D
  pub is_empty : D → Bool
  pub run : List Str → DataDir D → ℕ × DataDir D

-- The names of a validator's directory before and after: its address, then its moniker.
unfoldable pub layout_pairs :
    Ipaddress → DevnetConfig → Bool → ℕ → List ValidatorConfig → Result (List (Str × Str))
layout_pairs ip c docker index [] = ok []
layout_pairs ip c docker index (val ∷ vals) = do
  src ← if docker then docker_validator_addr ip c index else ok (validator_arg val)
  rest ← layout_pairs ip c docker (suc index) vals
  ok ((src, val.moniker) ∷ rest)

pub get_backend-tempo : get_backend (codes "tempo") ≡ ok tempo
unfolding get_backend eqb
get_backend-tempo = refl

module _ {ℓ} {D : Type ℓ} (ip : Ipaddress) (generator : Generator D) where
  -- `backend.prepare_layout`
  unfoldable pub arrange : Backend → DevnetConfig → Bool → DataDir D → Result (DataDir D)
  arrange tempo c docker data_dir = do
    pairs ← layout_pairs ip c docker 0 c.validators
    after ← prepare_layout generator.is_empty data_dir.dirs pairs
    ok (record data_dir { dirs = after })
  arrange allegro c docker data_dir =
      let names = map (λ (v : ValidatorConfig). v.moniker) c.validators in
      ok (record data_dir { dirs = make_dirs generator.empty data_dir.dirs names })

  -- `generate_localnet` in the data directory `path`, which is there.
  unfoldable pub generate_localnet :
      DevnetConfig → Str → Option Str → Bool → DataDir D → Result (DataDir D)
  unfolding arrange
  generate_localnet c path override docker data_dir = do
    backend ← get_backend c.backend
    let (code, made) = generator.run (localnet_args backend c path override) data_dir
    require (code == 0 && made.genesis) runtime_error
    arrange backend c docker made

  -- For the backend tempo, where the generator succeeds and writes a genesis.json, the addresses can
  -- be computed, and no two validators share an address or a moniker: `generate_localnet` raises
  -- nothing, and every directory that the generator made is where the layout's description says.
  pub generate_localnet-arranged :
      (c : DevnetConfig) (path : Str) (override : Option Str) (docker : Bool)
      (data_dir made : DataDir D) (pairs : List (Str × Str))
      → c.backend ≡ codes "tempo"
      → generator.run (localnet_args tempo c path override) data_dir ≡ (0, made)
      → made.genesis ≡ true
      → layout_pairs ip c docker 0 c.validators ≡ ok pairs
      → AllApart pairs
      → (after : DataDir D) × (generate_localnet c path override docker data_dir ≡ ok after)
        × (after.genesis ≡ true)
        × ((name : Str) → after.dirs name ≡ arranged made.dirs pairs name)
  unfolding generate_localnet
  generate_localnet-arranged c path override docker data_dir made pairs b ran gen paired apart =
      let (dirs, done, same) = prepare_layout-arranged generator.is_empty made.dirs pairs apart in
      let chosen = ap get_backend b ∙ get_backend-tempo in
      (record made { dirs = dirs }, rw (chosen, ran, gen, paired, done) refl, gen, same)

  -- An unknown backend raises ValueError; a generator that fails, or that leaves no genesis.json,
  -- makes `generate_localnet` raise RuntimeError for every known one.
  pub generate_localnet_errors :
      (c : DevnetConfig) (path : Str) (override : Option Str) (docker : Bool) (data_dir : DataDir D)
      → ((get_backend c.backend ≡ err value_error)
          → generate_localnet c path override docker data_dir ≡ err value_error)
        × ((backend : Backend) (code : ℕ) (made : DataDir D)
            → get_backend c.backend ≡ ok backend
            → generator.run (localnet_args backend c path override) data_dir ≡ (code, made)
            → (code == 0 && made.genesis) ≡ false
            → generate_localnet c path override docker data_dir ≡ err runtime_error)
  unfolding generate_localnet
  generate_localnet_errors c path override docker data_dir =
      (λ h. rw h, λ backend code made h ran bad. rw (h, ran, bad) refl)
