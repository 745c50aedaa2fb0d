-- ===== src/Signer.antt =====
-- tempo/signer.py: signing with a secp256k1 key, and recovering the address of a signature.
pub mod Laws
use tempo_py.Prelude.{
  ℕ, Bool, not, ◌||◌, List, [], ◌∷◌, ◌++◌, Result, ok, value_error, ◌>>=◌, ◌>>◌, require,
}
use tempo_py.Prelude.Int.{ℤ, pos, leb_ℤ, ltb_ℤ}
use tempo_py.Python.Bytes.{Bytes, Str, eqb}
use tempo_py.External.{External, Account}
use tempo_py.Types.{Address, BytesLike, as_address}
use tempo_py.Models.Signature
use tempo_py.Models.Signature.{Signature, secp256k1_n, secp256k1_half_n, is_v, pack}

pub record Signer : Type 0 where
  pub account : Account

-- `Signer.__init__`
unfoldable pub new : External → Str → Result Signer
new ext private_key_hex = do
  account ← ext.from_key private_key_hex
  ok (record { account = account })

-- `Signer.address`
unfoldable pub address : External → Signer → Result Address
address ext signer = ext.to_bytes_hex signer.account.address

unfoldable pub sign : Signer → Bytes → Result Signature
sign signer message_hash = do
  signed ← signer.account.sign_msg_hash message_hash
  Signature.new signed.r signed.s signed.v

unfoldable pub sign_data : External → Signer → Bytes → Result Signature
sign_data ext signer message = sign signer (ext.keccak message)

unfoldable pub recover_address : External → Bytes → Signature → Result Address
recover_address ext message_hash sig = do
  require (not (leb_ℤ sig.r (pos 0) || leb_ℤ (pos secp256k1_n) sig.r)) value_error
  require (not (leb_ℤ sig.s (pos 0) || ltb_ℤ (pos secp256k1_half_n) sig.s)) value_error
  require (is_v sig.v) value_error
  sig_bytes ← pack sig.r sig.s sig.v
  recovered ← ext.recover_hash message_hash sig_bytes
  ext.to_bytes_hex recovered

-- `Signer.verify_signature`
unfoldable pub signer_verify : External → Signer → Bytes → Signature → Result Bool
signer_verify ext signer message_hash sig = do
  recovered ← recover_address ext message_hash sig
  own ← address ext signer
  ok (eqb recovered own)

-- The module's `verify_signature`
unfoldable pub verify_signature : External → Bytes → Signature → BytesLike → Result Bool
verify_signature ext message_hash sig expected = do
  recovered ← recover_address ext message_hash sig
  own ← as_address ext expected
  ok (eqb recovered own)
