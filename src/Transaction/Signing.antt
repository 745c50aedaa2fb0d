-- ===== src/Transaction/Signing.antt =====
-- Signing and verification: a signature is recovered to the key that made it, and what the
-- payloads do not depend on.
use tempo_py.Prelude.{
  ◌≡◌, ◌≢◌, ◌∙◌, ap, List, [], ◌∷◌, true, false, Option, none, some, ok, err, value_error, ◌>>=◌,
  length, arith, Bool-cases, inl, inr,
}
use tempo_py.Python.Bytes.{Bytes, IsBytes}
use tempo_py.External.{External, IsHexReader, IsKeccak, IsRlp, wire, bytes}
use tempo_py.Types.{Address, buffer}
use tempo_py.Models.Signature.{Signature, to_rlp_list}
use tempo_py.Models.TempoTransaction.{TempoTransaction, SenderSignature, secp256k1}
use tempo_py.Models.TempoTransaction.Laws.{IsValid, evolve_lem}
use tempo_py.Signer.{Signer}
use tempo_py.Signer.Laws.{IsAccount, address_lem, sign_lem, recover-signature}
use tempo_py.Transaction.{
  build_rlp_fields, envelope_field, skips_fee_token, serialize_for_signing,
  serialize_for_fee_payer_signing, compute_hash, get_sign_payload, get_fee_payer_sign_payload,
  encode_fee_payer_field, encode_fee_token, encode_access_list,
}
use tempo_py.Transaction.Sign.{
  replace_fields, sign_transaction, sponsor, add_fee_payer_signature, verify_signature,
  verify_fee_payer_signature, sender_argument,
}
use tempo_py.Transaction.Fields.{IsNumeric, build_rlp_fields_lem}
use tempo_py.Transaction.Signable.{IsSignable}
use tempo_py.Transaction.Payload.{get_sign_payload_lem, get_fee_payer_sign_payload_lem}
use tempo_py.Transaction.Commit.{serialize_for_signing-injective}

envelope_dropped : (s : Option SenderSignature) → envelope_field true s ≡ ok []
unfolding envelope_field
envelope_dropped s = ground arith

-- What the sender signs does not depend on the sender's signature or address, nor on the
-- reserved authorization list.
pub serialize_for_signing-unsigned :
    (ext : External) (tx : TempoTransaction) (s : Option SenderSignature) (a : Option Address)
    (auth : List Bytes)
    → serialize_for_signing ext
        (record tx { sender_signature = s; sender_address = a; tempo_authorization_list = auth })
      ≡ serialize_for_signing ext tx
unfolding serialize_for_signing build_rlp_fields skips_fee_token encode_fee_payer_field
    encode_fee_token
serialize_for_signing-unsigned ext tx s a auth =
    rw (envelope_dropped s, envelope_dropped tx.sender_signature)

skipped_token : (tx : TempoTransaction) → encode_fee_token tx true ≡ []
unfolding encode_fee_token
skipped_token tx = ground arith

-- Once a fee payer is involved the sender's payload does not depend on the fee token.
pub serialize_for_signing-sponsored :
    (ext : External) (tx : TempoTransaction) (token : Option Address)
    → skips_fee_token tx ≡ true
    → serialize_for_signing ext (record tx { fee_token = token }) ≡ serialize_for_signing ext tx
unfolding serialize_for_signing build_rlp_fields encode_fee_payer_field skips_fee_token
serialize_for_signing-sponsored ext tx token h =
    rw (h, skipped_token tx, skipped_token (record tx { fee_token = token }))

pub get_sign_payload-unsigned :
    (ext : External) (tx : TempoTransaction) (s : Option SenderSignature) (a : Option Address)
    → get_sign_payload ext (record tx { sender_signature = s; sender_address = a })
      ≡ get_sign_payload ext tx
unfolding get_sign_payload
get_sign_payload-unsigned ext tx s a =
    ap (λ m. m >>= compute_hash ext)
      (serialize_for_signing-unsigned ext tx s a tx.tempo_authorization_list)

-- The fee payer's signature does not enter the fee payer's own payload.
fee_payer_payload-sponsored :
    (ext : External) (tx : TempoTransaction) (sender : Address) (s : Option Signature)
    → IsNumeric tx
    → get_fee_payer_sign_payload ext (record tx { fee_payer_signature = s }) (buffer sender)
      ≡ get_fee_payer_sign_payload ext tx (buffer sender)
unfolding get_fee_payer_sign_payload serialize_for_fee_payer_signing encode_fee_token
    encode_access_list
fee_payer_payload-sponsored ext tx sender s h = rw (
  build_rlp_fields_lem tx false true [] h (envelope_dropped tx.sender_signature),
  build_rlp_fields_lem (record tx { fee_payer_signature = s }) false true []
      (record {
        chain_id = h.chain_id;
        priority_fee = h.priority_fee;
        max_fee = h.max_fee;
        gas = h.gas;
        calls = h.calls;
        nonce_key = h.nonce_key;
        nonce = h.nonce;
        valid_before = h.valid_before;
        valid_after = h.valid_after;
      })
      (envelope_dropped tx.sender_signature),
)

sender_argument_lem :
    (o : Option Address) (sender : Address) → o ≡ some sender → sender_argument o ≡ buffer sender
unfolding sender_argument
sender_argument_lem o sender e = ground arith

add_fee_payer_signature_lem :
    (ext : External) (tx : TempoTransaction) (fee_payer : Signer) (s : SenderSignature)
    → tx.sender_signature ≡ some s
    → add_fee_payer_signature ext tx fee_payer ≡ sponsor ext tx fee_payer
unfolding add_fee_payer_signature
add_fee_payer_signature_lem ext tx fee_payer s e = ground arith

-- The parts that signing uses, in one place: the libraries as documented, a transaction that can
-- be signed, and a key.
module _ (ext : External) (hexes : IsHexReader ext) (hashes : IsKeccak ext) (codec : IsRlp ext)
    (tx : TempoTransaction) (valid : IsValid tx) (h : IsSignable tx) (signer : Signer)
    (acc : IsAccount ext signer.account) where
  -- For a transaction with well-formed addresses and parts that can be encoded, a key that signs as
  -- eth_account documents, and libraries that behave as documented (Keccak-256 has 32 bytes, RLP and
  -- hexadecimal text are read back): `sign_transaction` raises nothing, it returns the transaction
  -- with a sender signature and the signer's address, and `verify_signature` on the result returns
  -- that address.
  pub verify-sign_transaction :
      (sig : Signature) × let signed : TempoTransaction = record tx {
        sender_signature = some (secp256k1 sig);
        sender_address = some acc.address_bytes;
      } in
        (sign_transaction ext tx signer ≡ ok signed)
        × (verify_signature ext signed ≡ ok acc.address_bytes)
  unfolding sign_transaction verify_signature replace_fields
  verify-sign_transaction =
      let (b, payload) = get_sign_payload_lem ext hexes codec tx h in
      let n = hashes.length-keccak b in
      let sig = acc.signature (ext.keccak b) in
      let signed : TempoTransaction = record tx {
        sender_signature = some (secp256k1 sig);
        sender_address = some acc.address_bytes;
      } in
      let same = get_sign_payload-unsigned ext tx (some (secp256k1 sig)) (some acc.address_bytes) in
      let good : IsValid signed = record { token = valid.token; sender = acc.length-address } in
      (
        sig,
        (
          rw (payload, sign_lem ext signer acc (ext.keccak b) n, address_lem ext signer acc)
              (evolve_lem ext signed good),
          rw (same ∙ payload) (recover-signature ext signer acc (ext.keccak b) n),
        ),
      )

  -- Under the same conditions, for a transaction that has a sender signature and a 20-byte sender
  -- address: the fee payer adds a signature without an exception, nothing else of the
  -- transaction changes, and `verify_fee_payer_signature` at the sender's address returns the fee
  -- payer's address.
  pub verify-add_fee_payer_signature :
      (s : SenderSignature) (sender : Address)
      → tx.sender_signature ≡ some s
      → tx.sender_address ≡ some sender
      → length sender ≡ 20
      → IsBytes sender
      → (sig : Signature) × let sponsored : TempoTransaction = record tx {
        fee_payer_signature = some sig;
      } in
          (add_fee_payer_signature ext tx signer ≡ ok sponsored)
          × (verify_fee_payer_signature ext sponsored (buffer sender) ≡ ok acc.address_bytes)
  unfolding sponsor verify_fee_payer_signature replace_fields
  verify-add_fee_payer_signature s sender signed from n20 all_bytes =
      let (b, payload) = get_fee_payer_sign_payload_lem ext hexes codec tx h sender n20 all_bytes in
      let n = hashes.length-keccak b in
      let sig = acc.signature (ext.keccak b) in
      let same = fee_payer_payload-sponsored ext tx sender (some sig) h.numeric in
      let own =
        ap (get_fee_payer_sign_payload ext tx)
          (sender_argument_lem tx.sender_address sender from) in
      let good : IsValid (record tx { fee_payer_signature = some sig }) = record {
        token = valid.token;
        sender = valid.sender;
      } in
      (
        sig,
        (
          add_fee_payer_signature_lem ext tx signer s signed
              ∙ rw (own ∙ payload, sign_lem ext signer acc (ext.keccak b) n)
                  (evolve_lem ext (record tx { fee_payer_signature = some sig }) good),
          rw (same ∙ payload) (recover-signature ext signer acc (ext.keccak b) n),
        ),
      )

-- A transaction without a sender signature is neither sponsored nor verified: both raise
-- ValueError.
pub unsigned_errors :
    (ext : External) (tx : TempoTransaction) (fee_payer : Signer)
    → tx.sender_signature ≡ none
    → (add_fee_payer_signature ext tx fee_payer ≡ err value_error)
      × (verify_signature ext tx ≡ err value_error)
unfolding add_fee_payer_signature verify_signature
unsigned_errors ext tx fee_payer e = ground arith

list_ne_bytes : (sig : Signature) (b : Bytes) → wire (to_rlp_list sig) ≢ wire (bytes b)
unfolding wire to_rlp_list
list_ne_bytes sig b e = cc

unsponsored_field :
    (tx : TempoTransaction)
    → tx.fee_payer_signature ≡ none
    → tx.awaiting_fee_payer ≡ true
    → encode_fee_payer_field tx ≡ bytes (0 ∷ [])
unfolding encode_fee_payer_field
unsponsored_field tx e a = ground arith

unsponsored_field' :
    (tx : TempoTransaction)
    → tx.fee_payer_signature ≡ none
    → tx.awaiting_fee_payer ≡ false
    → encode_fee_payer_field tx ≡ bytes []
unfolding encode_fee_payer_field
unsponsored_field' tx e a = ground arith

fee_payer_field_changes :
    (tx : TempoTransaction) (sig : Signature)
    → tx.fee_payer_signature ≡ none
    → wire (encode_fee_payer_field (record tx { fee_payer_signature = some sig }))
      ≢ wire (encode_fee_payer_field tx)
unfolding encode_fee_payer_field
fee_payer_field_changes tx sig e h = elim (Bool-cases tx.awaiting_fee_payer) [
  | inl a ↦ list_ne_bytes sig (0 ∷ []) (h ∙ ap wire (unsponsored_field tx e a))
  | inr a ↦ list_ne_bytes sig [] (h ∙ ap wire (unsponsored_field' tx e a))
]

-- For a transaction without a fee payer's signature that can be encoded with and without it, and
-- with RLP and hexadecimal text read back as documented: attaching a fee payer's signature changes
-- what its sender signs, awaited or not:
-- the text that the sender signed is not the text that is hashed when the sponsored transaction's
-- sender signature is verified.
pub sponsored_payload_differs :
    (ext : External) (tx : TempoTransaction) (sig : Signature)
    → IsHexReader ext
    → IsRlp ext
    → IsSignable tx
    → IsSignable (record tx { fee_payer_signature = some sig })
    → tx.fee_payer_signature ≡ none
    → serialize_for_signing ext (record tx { fee_payer_signature = some sig })
      ≢ serialize_for_signing ext tx
sponsored_payload_differs ext tx sig hexes codec h h' unsponsored same =
    let c =
      serialize_for_signing-injective ext (record tx { fee_payer_signature = some sig }) tx hexes
        codec h' h same in
    fee_payer_field_changes tx sig unsponsored c.fee_payer
