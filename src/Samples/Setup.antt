-- ===== src/Samples/Setup.antt =====
-- Concrete libraries, keys and transactions, with what the theorems ask of them.
use tempo_py.Prelude.{
  ℕ, zero, suc, ◌<◌, refl, ap, [], ◌∷◌, ◌++◌, true, none, some, ok, replicate, All-append, inl,
  length, length-append, ◌==◌, arith,
}
use tempo_py.Prelude.Int.{pos}
use tempo_py.Python.Bytes.{Bytes, IsBytes, codes, hex}
use tempo_py.External.{External, Account, IsHexReader, IsKeccak, IsRlp, IsEncodable, bytes}
use tempo_py.Types.{Address}
use tempo_py.Models.Signature.{Signature}
use tempo_py.Models.Signature.Laws as SignatureLaws
use tempo_py.Models.TempoTransaction.{TempoTransaction, secp256k1, item}
use tempo_py.Models.TempoTransaction.Laws.{IsValid}
use tempo_py.Signer.{Signer}
use tempo_py.Signer.Laws.{IsAccount}
use tempo_py.P256.Ecc.{Curve, EccKey}
use tempo_py.P256.Signing.{IsEccKey, IsSha256}
use tempo_py.Transaction.{or_zero}
use tempo_py.Python.Ints.{from_bytes, from_bytes_after, big_endian}
use tempo_py.Python.Ints.Laws.{length-big_endian}
use tempo_py.Transaction.Fields.{IsNumeric}
use tempo_py.Transaction.Signable.{IsSignable}
use tempo_py.Samples.Codec.{put, get, get-put, put-IsBytes, read_hex, read_hex-hex}

pub repeated-IsBytes : (n k : ℕ) → k < 256 → IsBytes (replicate n k)
repeated-IsBytes zero k h = tt
repeated-IsBytes (suc n) k h = (h, repeated-IsBytes n k h)

abbrev pub alice : Address
alice = replicate 20 17

abbrev pub bob : Address
bob = replicate 20 34

abbrev pub sig_one : Signature
sig_one = record { r = pos 1; s = pos 1; v = pos 0 }

abbrev pub account : Account
account = record {
  address = codes "0x" ++ hex alice;
  sign_msg_hash = λ h. ok (record { r = pos 1; s = pos 1; v = pos 0 });
}

abbrev pub ext : External
ext = record {
  to_bytes_hex = λ text. ok (read_hex text);
  keccak = λ b. replicate 32 7;
  rlp_encode = λ x. ok (put x []);
  from_key = λ text. ok account;
  recover_hash = λ h b. ok (codes "0x" ++ hex alice);
}

pub hexes : IsHexReader ext
hexes = record { to_bytes-hex = λ b h. ap ok (read_hex-hex b'0' b'x' b) }

pub hashes : IsKeccak ext
hashes = record {
  length-keccak = λ b. refl;
  keccak-IsBytes = λ b. repeated-IsBytes 32 7 (omega arith);
}

pub codec : IsRlp ext
codec = record {
  rlp_decode = get;
  encode_lem = λ x h. (put x [], refl, put-IsBytes x [] h tt, get-put x);
}

abbrev pub signer : Signer
signer = record { account = account }

pub sig_one-IsValid : SignatureLaws.IsValid sig_one
sig_one-IsValid = record {
  r_pos = refl;
  r_range = (omega arith, omega arith);
  s_pos = refl;
  s_range = (omega arith, omega arith);
  v_in = inl refl;
}

abbrev pub acc : IsAccount ext account
acc = record {
  address_bytes = alice;
  length-address = refl;
  to_bytes-address = ap ok (read_hex-hex b'0' b'x' alice);
  signature = λ h. sig_one;
  sign-eq-ok = λ h n. refl;
  signature-IsValid = λ h n. sig_one-IsValid;
  recover-to_bytes = λ h b n e. refl;
  recover-to_canonical_bytes = λ h b n e. refl;
}

-- A transaction with a call, an access list and a fee token.
abbrev pub tx : TempoTransaction
tx = record {
  chain_id = pos 4217;
  max_priority_fee_per_gas = pos 1;
  max_fee_per_gas = pos 300;
  gas_limit = pos 21000;
  calls = record { to = bob; value = pos 5; call_data = 1 ∷ 2 ∷ [] } ∷ [];
  access_list = item (record { address = bob; storage_keys = replicate 32 3 ∷ [] }) ∷ [];
  nonce_key = pos 0;
  nonce = pos 9;
  valid_before = some (pos 1000);
  valid_after = none;
  fee_token = some bob;
  sender_signature = none;
  fee_payer_signature = none;
  awaiting_fee_payer = true;
  sender_address = none;
  tempo_authorization_list = [];
  key_authorization = some (bytes (5 ∷ []));
}

pub tx-IsValid : IsValid tx
tx-IsValid = record { token = refl; sender = tt }

abbrev pub small : (n : ℕ) → n < 256 → IsBytes (n ∷ [])
small n h = (h, tt)

pub tx-IsNumeric : IsNumeric tx
unfolding or_zero
tx-IsNumeric = record {
  chain_id = tt;
  priority_fee = tt;
  max_fee = tt;
  gas = tt;
  calls = (tt, tt);
  nonce_key = tt;
  nonce = tt;
  valid_before = tt;
  valid_after = tt;
}

pub tx-IsSignable : IsSignable tx
tx-IsSignable = record {
  numeric = tx-IsNumeric;
  call_bytes = ((repeated-IsBytes 20 34 (omega arith), (omega arith, (omega arith, tt))), tt);
  entries =
      ((refl, repeated-IsBytes 20 34 (omega arith), (repeated-IsBytes 32 3 (omega arith), tt)), tt);
  token = repeated-IsBytes 20 34 (omega arith);
  sponsored = tt;
  authorization = unfold IsEncodable in small 5 (omega arith);
}

-- The transaction with its sender's signature, and with a fee payer's as well.
abbrev pub signed_tx : TempoTransaction
signed_tx = record tx { sender_signature = some (secp256k1 sig_one); sender_address = some alice }

abbrev pub sponsored_tx : TempoTransaction
sponsored_tx = record tx { fee_payer_signature = some sig_one }

pub signed_tx-IsValid : IsValid signed_tx
signed_tx-IsValid = record { token = refl; sender = refl }

pub signed_tx-IsSignable : IsSignable signed_tx
signed_tx-IsSignable = record {
  numeric = record {
    chain_id = tt;
    priority_fee = tt;
    max_fee = tt;
    gas = tt;
    calls = (tt, tt);
    nonce_key = tt;
    nonce = tt;
    valid_before = tx-IsNumeric.valid_before;
    valid_after = tx-IsNumeric.valid_after;
  };
  call_bytes = tx-IsSignable.call_bytes;
  entries = tx-IsSignable.entries;
  token = tx-IsSignable.token;
  sponsored = tt;
  authorization = tx-IsSignable.authorization;
}

pub sponsored_tx-IsSignable : IsSignable sponsored_tx
sponsored_tx-IsSignable = record {
  numeric = record {
    chain_id = tt;
    priority_fee = tt;
    max_fee = tt;
    gas = tt;
    calls = (tt, tt);
    nonce_key = tt;
    nonce = tt;
    valid_before = tx-IsNumeric.valid_before;
    valid_after = tx-IsNumeric.valid_after;
  };
  call_bytes = tx-IsSignable.call_bytes;
  entries = tx-IsSignable.entries;
  token = tx-IsSignable.token;
  sponsored = sig_one-IsValid;
  authorization = tx-IsSignable.authorization;
}

abbrev pub curve : Curve
curve = record {
  sha256 = λ b. replicate 32 9;
  construct_point = λ x y. ok (λ digest b. length b == 64);
}

abbrev zeros : Bytes
zeros = replicate 31 0

-- A key whose signatures are r = s = 1.
abbrev pub ecc_key : EccKey
ecc_key = record {
  point_x = pos 2;
  point_y = pos 3;
  dss_sign = λ digest. (zeros ++ (1 ∷ [])) ++ (zeros ++ (1 ∷ []));
}

pub sha : IsSha256 curve
sha = record { length-sha256 = λ b. refl }

abbrev pub one : Bytes
one = zeros ++ (1 ∷ [])

half-IsBytes : IsBytes one
half-IsBytes =
    All-append (λ x. x < 256) zeros (1 ∷ []) (repeated-IsBytes 31 0 (omega arith)) (omega arith, tt)

one-IsBytes : IsBytes (one ++ one)
one-IsBytes = All-append (λ x. x < 256) one one half-IsBytes half-IsBytes

pub ecc_key-IsEccKey : IsEccKey curve ecc_key
ecc_key-IsEccKey = record {
  x_pos = refl;
  x_range = omega arith;
  y_pos = refl;
  y_range = omega arith;
  verifier = λ digest b. length b == 64;
  construct-eq-ok = refl;
  length-sign = λ digest n. refl;
  sign-IsBytes = λ digest n. one-IsBytes;
  sign_r = λ digest n. unfold from_bytes from_bytes_after in (omega arith, omega arith);
  sign_s = λ digest n. unfold from_bytes from_bytes_after in (omega arith, omega arith);
  verify-sign = λ digest n. refl;
  verify-twin = λ digest r s m nr ns e f.
      ground (arith, nr, length-append r (big_endian 32 m), length-big_endian 32 m);
}

pub alice-IsBytes : IsBytes alice
alice-IsBytes = repeated-IsBytes 20 17 (omega arith)

abbrev pub digest : Bytes
digest = replicate 32 7
