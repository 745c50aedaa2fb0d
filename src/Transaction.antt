-- ===== src/Transaction.antt =====
-- tempo/transaction.py: the RLP fields of a transaction, its serialized forms, and signing.
pub mod Topic
pub mod Ints
pub mod Fields
pub mod Inversion
pub mod Signable
pub mod Payload
pub mod Commit
pub mod Sign
pub mod Signing
use tempo_py.Prelude.{
  ℕ, zero, suc, ◌+◌, ◌/◌, ◌==◌, Bool, true, false, not, ◌&&◌, ◌||◌, if◌then◌else◌, List, [], ◌∷◌,
  ◌++◌, map, set, replicate, Option, none, some, Result, ok, err, value_error, ◌>>=◌, ◌>>◌, require,
  traverse,
}
use tempo_py.Prelude.Int.{ℤ, pos, negsuc, eqb_ℤ}
use tempo_py.Python.Bytes.{Bytes, Str, codes, hex, eqb}
use tempo_py.Python.Ints.{to_bytes, bit_length}
use tempo_py.External.{External, Rlp, bytes, seq}
use tempo_py.Types.{Address, BytesLike, buffer, as_address}
use tempo_py.Models.Call.{Call, AccessListItem}
use tempo_py.Models.Signature
use tempo_py.Models.Signature.{Signature}
use tempo_py.Models.TempoTransaction.{
  TempoTransaction, SenderSignature, secp256k1, keychain, AccessEntry, item, foreign, evolve,
  has_fee_payer_signature,
}
use tempo_py.KeychainSignature
use tempo_py.KeychainSignature.{KeychainSignature}
use tempo_py.Signer
use tempo_py.Signer.{Signer}

-- `value.bit_length()`, which reads the magnitude.
unfoldable pub magnitude_bits : ℤ → ℕ
magnitude_bits (pos n) = bit_length n
magnitude_bits (negsuc n) = bit_length (suc n)

unfoldable pub int_to_rlp_bytes : ℤ → Result Bytes
unfolding magnitude_bits
int_to_rlp_bytes value =
    if eqb_ℤ value (pos 0) then ok [] else to_bytes value ((magnitude_bits value + 7) / 8)

unfoldable pub address_to_rlp_bytes : Address → Bytes
address_to_rlp_bytes addr = if eqb addr (replicate 20 0) then [] else addr

-- `_bigint_to_rlp_bytes`
unfoldable pub bigint_to_rlp_bytes : ℤ → Result Bytes
bigint_to_rlp_bytes value = int_to_rlp_bytes value

-- `b or b""`, and `bytes(b) if b else b""`
unfoldable pub or_empty : Bytes → Bytes
or_empty [] = []
or_empty (x ∷ b) = x ∷ b

unfoldable pub encode_call : Call → Result Rlp
encode_call c = do
  val_bytes ← int_to_rlp_bytes c.value
  ok (seq (bytes (or_empty c.to) ∷ bytes val_bytes ∷ bytes (or_empty c.call_data) ∷ []))

unfoldable pub encode_calls : List Call → Result Rlp
encode_calls calls = traverse encode_call calls >>= λ xs. ok (seq xs)

unfoldable pub encode_access_entry : AccessEntry → Rlp
encode_access_entry (item i) = seq (bytes i.address ∷ seq (map bytes i.storage_keys) ∷ [])
encode_access_entry foreign = seq (bytes [] ∷ seq [] ∷ [])

unfoldable pub encode_access_list : List AccessEntry → Rlp
encode_access_list access_list = seq (map encode_access_entry access_list)

-- `_encode_signature`: both classes have a `to_bytes`.
unfoldable pub encode_signature : Option SenderSignature → Result Bytes
encode_signature none = ok []
encode_signature (some (secp256k1 sig)) = Signature.to_bytes sig
encode_signature (some (keychain sig)) = ok (KeychainSignature.to_bytes sig)

unfoldable pub encode_fee_payer_field : TempoTransaction → Rlp
encode_fee_payer_field tx = elim (tx.fee_payer_signature) [
  | some sig ↦ Signature.to_rlp_list sig
  | none ↦ if tx.awaiting_fee_payer then bytes (0 ∷ []) else bytes []
]

unfoldable pub encode_fee_token : TempoTransaction → Bool → Bytes
encode_fee_token tx skip = elim (tx.fee_token) [
  | none ↦ []
  | some token ↦ if skip then [] else token
]

-- `value or 0`
unfoldable pub or_zero : Option ℤ → ℤ
or_zero none = pos 0
or_zero (some n) = n

-- `fields.append(tx.key_authorization)` where it is set.
unfoldable pub authorization_field : Option Rlp → List Rlp
authorization_field none = []
authorization_field (some a) = a ∷ []

-- `fields.append(_encode_signature(…))` where a signature is set and is not dropped.
unfoldable pub envelope_field : Bool → Option SenderSignature → Result (List Rlp)
envelope_field drop none = ok []
envelope_field drop (some sig) =
    if drop then ok [] else (encode_signature (some sig) >>= λ b. ok (bytes b ∷ []))

-- `_build_rlp_fields`
unfoldable pub build_rlp_fields : TempoTransaction → Bool → Bool → Result (List Rlp)
build_rlp_fields tx skip_fee_token drop_signatures = do
  chain_id ← bigint_to_rlp_bytes tx.chain_id
  priority_fee ← int_to_rlp_bytes tx.max_priority_fee_per_gas
  max_fee ← int_to_rlp_bytes tx.max_fee_per_gas
  gas ← int_to_rlp_bytes tx.gas_limit
  calls ← encode_calls tx.calls
  nonce_key ← bigint_to_rlp_bytes tx.nonce_key
  nonce ← int_to_rlp_bytes tx.nonce
  valid_before ← int_to_rlp_bytes (or_zero tx.valid_before)
  valid_after ← int_to_rlp_bytes (or_zero tx.valid_after)
  envelope ← envelope_field drop_signatures tx.sender_signature
  ok (
      bytes chain_id
      ∷ bytes priority_fee
      ∷ bytes max_fee
      ∷ bytes gas
      ∷ calls
      ∷ encode_access_list tx.access_list
      ∷ bytes nonce_key
      ∷ bytes nonce
      ∷ bytes valid_before
      ∷ bytes valid_after
      ∷ bytes (encode_fee_token tx skip_fee_token)
      ∷ encode_fee_payer_field tx
      ∷ seq []
      ∷ (authorization_field tx.key_authorization ++ envelope))

-- `skip_fee_token` of `serialize_for_signing`
unfoldable pub skips_fee_token : TempoTransaction → Bool
unfolding has_fee_payer_signature
skips_fee_token tx = tx.awaiting_fee_payer || has_fee_payer_signature tx

-- `"0x76" + encoded.hex()`, or with "0x78"
unfoldable pub prefixed : Str → Bytes → Str
prefixed prefix encoded = prefix ++ hex encoded

unfoldable pub serialize_for_signing : External → TempoTransaction → Result Str
serialize_for_signing ext tx = do
  fields ← build_rlp_fields tx (skips_fee_token tx) true
  encoded ← ext.rlp_encode (seq fields)
  ok (prefixed (codes "0x76") encoded)

unfoldable pub serialize_for_fee_payer_signing :
    External → TempoTransaction → BytesLike → Result Str
serialize_for_fee_payer_signing ext tx sender = do
  fields ← build_rlp_fields tx false true
  sender_bytes ← as_address ext sender
  encoded ← ext.rlp_encode (seq (set fields 11 (bytes sender_bytes)))
  ok (prefixed (codes "0x78") encoded)

unfoldable pub serialize : External → TempoTransaction → Result Str
serialize ext tx = do
  fields ← build_rlp_fields tx false false
  encoded ← ext.rlp_encode (seq fields)
  ok (prefixed (codes "0x76") encoded)

unfoldable pub compute_hash : External → Str → Result Bytes
compute_hash ext serialized_hex = do raw ← ext.to_bytes_hex serialized_hex; ok (ext.keccak raw)

unfoldable pub get_sign_payload : External → TempoTransaction → Result Bytes
get_sign_payload ext tx = serialize_for_signing ext tx >>= compute_hash ext

unfoldable pub get_fee_payer_sign_payload : External → TempoTransaction → BytesLike → Result Bytes
get_fee_payer_sign_payload ext tx sender =
    serialize_for_fee_payer_signing ext tx sender >>= compute_hash ext

-- The keyword arguments of `_replace_fields` that the SDK passes; `none` leaves a field as it is.
pub record Changes : Type 0 where
  pub sender_signature : Option SenderSignature
  pub fee_payer_signature : Option Signature
  pub sender_address : Option Address
  pub awaiting_fee_payer : Option Bool
  pub key_authorization : Option Rlp

abbrev pub no_changes : Changes
no_changes = record {
  sender_signature = none;
  fee_payer_signature = none;
  sender_address = none;
  awaiting_fee_payer = none;
  key_authorization = none;
}
