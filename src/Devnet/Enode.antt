-- ===== src/Devnet/Enode.antt =====
-- The directories of the services in tempo/devnet/supervisor.py, and their node keys.
pub mod Identity
pub mod Kept
use tempo_py.Prelude.{
  ℕ, zero, suc, ◌==◌, ◌&&◌, ◌||◌, Bool, true, false, leb, if◌then◌else◌, List, [], ◌∷◌, drop,
  Option, none, some, Result, ok, err,
}
use tempo_py.Python.Bytes.{Bytes, Str, codes, eqb, hex}
use tempo_py.Python.Base64.{prepend_unless}
use mathlib.Core.Option

-- The whitespace that `str.strip` removes.
unfoldable pub is_space : ℕ → Bool
is_space c =
    (leb 9 c && leb c 13)
    || (leb 28 c && leb c 32)
    || (c == 0x85)
    || (c == 0xa0)
    || (c == 0x1680)
    || (leb 0x2000 c && leb c 0x200a)
    || (c == 0x2028)
    || (c == 0x2029)
    || (c == 0x202f)
    || (c == 0x205f)
    || (c == 0x3000)

unfoldable pub strip_left : Str → Str
strip_left [] = []
strip_left (c ∷ cs) = let rest = strip_left cs in if is_space c then rest else c ∷ cs

unfoldable pub strip_right : Str → Str
strip_right [] = []
strip_right (c ∷ cs) = prepend_unless (is_space c) c (strip_right cs)

-- `s.startswith(prefix)`
unfoldable pub starts_with : Str → Str → Bool
starts_with [] s = true
starts_with (p ∷ ps) [] = false
starts_with (p ∷ ps) (c ∷ cs) = (p == c) && starts_with ps cs

-- The text in front of the first "@". `index` raises ValueError where there is none.
unfoldable pub before_at : Str → Option Str
before_at [] = none
before_at (c ∷ cs) =
    let rest = before_at cs in if c == b'@' then some [] else Option.map (λ s. c ∷ s) rest

-- The identity in the output of `tempo p2p enode`.
unfoldable pub identity_of : Str → Option Str
unfolding strip_left strip_right starts_with before_at
identity_of stdout =
    let line = strip_left (strip_right stdout) in
    if starts_with (codes "enode://") line then before_at (drop 8 line) else none

-- The directory of a service.
pub record ServiceDir : Type 0 where
  pub enode_key : Option Str
  pub enode_identity : Option Str
  pub genesis : Option Bytes
  pub script : Option Str

-- `subprocess.run(["tempo", "-q", "p2p", "enode", …])` on a file with this text: the exit code and the
-- standard output, or an exception, as on a timeout.
abbrev pub EnodeCommand : Type 0
EnodeCommand = Str → Result (ℕ × Str)

-- What is written to enode.identity, if anything.
abbrev pub derived : Result (ℕ × Str) → Option Str
derived (err raised) = none
derived (ok (zero, stdout)) = identity_of stdout
derived (ok (suc code, stdout)) = none

abbrev pub key_or : Bytes → Option Str → Str
key_or priv none = hex priv
key_or priv (some key) = key

abbrev pub identity_or : Option Str → Option Str → Option Str
identity_or new none = new
identity_or new (some id) = some id

-- `_ensure_enode_keypair`, where `priv` is what `secrets.token_bytes(32)` draws.
unfoldable pub ensure_enode_keypair : Bytes → EnodeCommand → ServiceDir → ServiceDir
unfolding identity_of
ensure_enode_keypair priv command dir =
    let key = key_or priv dir.enode_key in
    record dir {
      enode_key = some key;
      enode_identity = identity_or (derived (command key)) dir.enode_identity;
    }

abbrev pub dir_or_new : Option ServiceDir → ServiceDir
dir_or_new none = record { enode_key = none; enode_identity = none; genesis = none; script = none }
dir_or_new (some dir) = dir

abbrev pub genesis_or : Option Bytes → Option Bytes → Option Bytes
genesis_or none old = old
genesis_or (some genesis) old = some genesis

-- `_prepare_periphery_dir`, with the genesis.json of the data directory and the wrapper script.
unfoldable pub prepare_periphery_dir : Option Bytes → Str → Option ServiceDir → ServiceDir
prepare_periphery_dir genesis script old =
    let dir = dir_or_new old in
    record dir { genesis = genesis_or genesis dir.genesis; script = some script }

-- `_prepare_follow_node_dir`, `_prepare_proxy_dir` and `_prepare_public_node_dir`, each with the script
-- of its own command.
unfoldable pub prepare_service_dir :
    Bytes → EnodeCommand → Option Bytes → Str → Option ServiceDir → ServiceDir
unfolding ensure_enode_keypair prepare_periphery_dir
prepare_service_dir priv command genesis script old =
    ensure_enode_keypair priv command (prepare_periphery_dir genesis script old)
