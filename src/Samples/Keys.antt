-- ===== src/Samples/Keys.antt =====
-- The directory of a service that is prepared twice.
use tempo_py.Prelude.{◌≡◌, refl, ◌++◌, replicate, none, some, ok, err, os_error, arith}
use tempo_py.Python.Bytes.{Bytes, codes, hex}
use tempo_py.Devnet.Enode.{ServiceDir, EnodeCommand, prepare_service_dir}
use tempo_py.Devnet.Enode.Kept.{prepare_service_dir_again}

abbrev drawn : Bytes
drawn = replicate 32 7

abbrev command : EnodeCommand
command = λ key. ok (0, codes "enode://" ++ (codes "c0ffee" ++ codes "@127.0.0.1:30303"))

-- A later call that fails.
abbrev later : EnodeCommand
later = λ key. err os_error

prepare_service_dir_again_example :
    (dir : ServiceDir) × (prepare_service_dir drawn command none (codes "one") none ≡ dir)
    × (dir.enode_key ≡ some (hex drawn))
    × (dir.enode_identity ≡ some (codes "c0ffee"))
    × (dir.genesis ≡ none)
    × (prepare_service_dir (replicate 32 9) later none (codes "two") (some dir)
        ≡ record dir { script = some (codes "two") })
prepare_service_dir_again_example =
    prepare_service_dir_again drawn (replicate 32 9) command later none (codes "one") (codes "two")
      (codes "c0ffee") (codes "127.0.0.1:30303") (ground arith) refl
