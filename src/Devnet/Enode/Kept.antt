-- ===== src/Devnet/Enode/Kept.antt =====
-- The key and the identity of a service are made once.
use tempo_py.Prelude.{◌≡◌, ◌≢◌, refl, Option, none, some, ok, ◌∷◌, ◌++◌, All}
use tempo_py.Python.Bytes.{Bytes, Str, codes, hex}
use tempo_py.Devnet.Enode.{
  ServiceDir, EnodeCommand, ensure_enode_keypair, prepare_service_dir, derived, genesis_or,
  prepare_periphery_dir,
}
use tempo_py.Devnet.Enode.Identity.{identity_of-url}

genesis_or-none : (g : Option Bytes) → genesis_or g none ≡ g
genesis_or-none none = refl
genesis_or-none (some g) = refl

genesis_or_same : (g : Option Bytes) → genesis_or g g ≡ g
genesis_or_same none = refl
genesis_or_same (some g) = refl

-- A service that is new, where `tempo p2p enode` answers with an enode URL for the random key, gets
-- the random bytes as its key and the URL's identity, with the genesis.json of the data directory
-- and its script. Preparing it again, with any other random bytes and whatever the program answers,
-- changes nothing but the script.
pub prepare_service_dir_again :
    (priv other : Bytes) (command later : EnodeCommand) (genesis : Option Bytes)
    (script new_script : Str) (id rest : Str)
    → All (λ c. c ≢ b'@') id
    → command (hex priv) ≡ ok (0, codes "enode://" ++ (id ++ (b'@' ∷ rest)))
    → (dir : ServiceDir) × (prepare_service_dir priv command genesis script none ≡ dir)
      × (dir.enode_key ≡ some (hex priv))
      × (dir.enode_identity ≡ some id)
      × (dir.genesis ≡ genesis)
      × (prepare_service_dir other later genesis new_script (some dir)
          ≡ record dir { script = some new_script })
unfolding prepare_service_dir ensure_enode_keypair prepare_periphery_dir
prepare_service_dir_again priv other command later genesis script new_script id rest h e =
    let read : derived (command (hex priv)) ≡ some id = rw e (identity_of-url id rest h) in
    let dir : ServiceDir = record {
      enode_key = some (hex priv);
      enode_identity = some id;
      genesis = genesis;
      script = some script;
    } in
    (
      dir,
      rw (read, genesis_or-none genesis) refl,
      refl,
      refl,
      refl,
      rw (genesis_or_same genesis) refl,
    )
