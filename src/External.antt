-- ===== src/External.antt =====
-- The third-party code that the SDK calls: eth_utils, eth_account / eth_keys and rlp.
-- `External` is what they offer, and the records of laws are what their documentation says of it;
-- a definition takes the first, a theorem the laws that it needs.
use tempo_py.Prelude.{◌≡◌, List, [], ◌∷◌, ◌++◌, Option, some, Result, ok, length}
use tempo_py.Prelude.Int.{ℤ, pos, negsuc}
use tempo_py.Python.Bytes.{Bytes, IsBytes, Str, codes, hex}
use tempo_py.Python.Ints.{big_endian}
use tempo_py.Python.Ints.BitLength.{byte_length}

-- What `rlp.encode` is given: byte strings, integers and lists of such.
mutual
  pub data Rlp : Type 0 where
    bytes : Bytes → Rlp
    int : ℤ → Rlp
    list : Rlps → Rlp

  pub data Rlps : Type 0 where
    nil : Rlps
    cons : Rlp → Rlps → Rlps

abbrev pub rlps : List Rlp → Rlps
rlps [] = nil
rlps (x ∷ xs) = cons x (rlps xs)

-- A Python list of encodable objects.
abbrev pub seq : List Rlp → Rlp
seq xs = list (rlps xs)

-- What `rlp.decode` gives back: an integer is on the wire as its shortest big-endian bytes.
abbrev pub wire_int : ℤ → Bytes
wire_int (pos n) = big_endian (byte_length n) n
wire_int (negsuc n) = []

unfoldable mutual
  pub wire : Rlp → Rlp
  wire (bytes b) = bytes b
  wire (int n) = bytes (wire_int n)
  wire (list xs) = list (wires xs)

  pub wires : Rlps → Rlps
  wires nil = nil
  wires (cons x xs) = cons (wire x) (wires xs)

-- An `eth_keys` signature `(r, s, v)`.
pub record RawSignature : Type 0 where
  pub r : ℤ
  pub s : ℤ
  pub v : ℤ

-- An `eth_account` account: its checksummed address and `_key_obj.sign_msg_hash`.
pub record Account : Type 0 where
  pub address : Str
  pub sign_msg_hash : Bytes → Result RawSignature

pub record External : Type 0 where
  -- `eth_utils.to_bytes(hexstr=…)`
  pub to_bytes_hex : Str → Result Bytes
  -- `eth_utils.keccak`
  pub keccak : Bytes → Bytes
  -- `rlp.encode`
  pub rlp_encode : Rlp → Result Bytes
  -- `Account.from_key`
  pub from_key : Str → Result Account
  -- `Account._recover_hash(hash, signature=…)`: the address, as a checksummed string
  pub recover_hash : Bytes → Bytes → Result Str

-- `to_bytes` reads back what `bytes.hex` writes behind "0x".
pub record IsHexReader (ext : External) : Type 0 where
  pub to_bytes-hex : (b : Bytes) → IsBytes b → ext.to_bytes_hex (codes "0x" ++ hex b) ≡ ok b

-- A Keccak-256 digest has 32 bytes.
pub record IsKeccak (ext : External) : Type 0 where
  pub length-keccak : (b : Bytes) → length (ext.keccak b) ≡ 32
  pub keccak-IsBytes : (b : Bytes) → IsBytes (ext.keccak b)

-- What `rlp.encode` accepts: byte strings, integers that are not negative, and lists of such.
abbrev pub IsWireInt : ℤ → Type 0
IsWireInt (pos n) = Unit
IsWireInt (negsuc n) = ⊥

unfoldable mutual
  pub IsEncodable : Rlp → Type 0
  IsEncodable (bytes b) = IsBytes b
  IsEncodable (int n) = IsWireInt n
  IsEncodable (list xs) = AreEncodable xs

  pub AreEncodable : Rlps → Type 0
  AreEncodable nil = Unit
  AreEncodable (cons x xs) = IsEncodable x × AreEncodable xs

-- `rlp.encode` accepts every encodable object, and `rlp.decode` reads back what it writes, with
-- integers as their bytes.
pub record IsRlp (ext : External) : Type 0 where
  pub rlp_decode : Bytes → Option Rlp
  pub encode_lem :
      (x : Rlp)
      → IsEncodable x
      → (b : Bytes) × (ext.rlp_encode x ≡ ok b) × IsBytes b × (rlp_decode b ≡ some (wire x))
