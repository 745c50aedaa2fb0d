-- ===== src/Samples/Signing.antt =====
-- The theorems on signing and on the payloads, at the sample transactions.
use tempo_py.Prelude.{◌≡◌, ◌≢◌, refl, [], true, none, some, ok}
use tempo_py.Types.{buffer}
use tempo_py.Models.Signature.{Signature}
use tempo_py.Models.TempoTransaction.{TempoTransaction, secp256k1}
use tempo_py.Signer.{sign, signer_verify, verify_signature}
use tempo_py.Signer.Laws.{verify-sign}
use tempo_py.Transaction.{
  serialize_for_signing, serialize_for_fee_payer_signing, envelope_field, skips_fee_token, prefixed,
}
use tempo_py.Transaction.Sign
use tempo_py.Transaction.Sign.{
  sign_transaction, add_fee_payer_signature, verify_fee_payer_signature,
}
use tempo_py.Transaction.Fields.{build_rlp_fields_lem}
use tempo_py.Transaction.Payload.{sender_fields}
use tempo_py.Samples.Codec.{put}
use tempo_py.Transaction.Commit.{SameCommitment, serialize_for_signing-injective, payloads_apart}
use tempo_py.Transaction.Signing.{
  verify-sign_transaction, verify-add_fee_payer_signature, serialize_for_signing-unsigned,
  serialize_for_signing-sponsored, sponsored_payload_differs,
}
use tempo_py.Samples.Setup.{
  ext, hexes, hashes, codec, signer, acc, alice, sig_one, tx, tx-IsValid, tx-IsSignable,
  tx-IsNumeric, signed_tx, alice-IsBytes, digest, signed_tx-IsValid, signed_tx-IsSignable,
  sponsored_tx, sponsored_tx-IsSignable,
}
use tempo_py.Python.Bytes.{Str, codes}

abbrev signed_by : Signature → TempoTransaction
signed_by sig = record tx { sender_signature = some (secp256k1 sig); sender_address = some alice }

abbrev sponsored_by : Signature → TempoTransaction
sponsored_by sig = record signed_tx { fee_payer_signature = some sig }

verify-sign_transaction_example :
    (sig : Signature) × ((sign_transaction ext tx signer ≡ ok (signed_by sig))
      × (Sign.verify_signature ext (signed_by sig) ≡ ok alice))
verify-sign_transaction_example =
    verify-sign_transaction ext hexes hashes codec tx tx-IsValid tx-IsSignable signer acc

verify-add_fee_payer_signature_example :
    (sig : Signature) × ((add_fee_payer_signature ext signed_tx signer ≡ ok (sponsored_by sig))
      × (verify_fee_payer_signature ext (sponsored_by sig) (buffer alice) ≡ ok alice))
verify-add_fee_payer_signature_example =
    verify-add_fee_payer_signature ext hexes hashes codec signed_tx signed_tx-IsValid
      signed_tx-IsSignable signer acc (secp256k1 sig_one) alice refl refl refl alice-IsBytes

-- The reserved list and the sender's fields are not part of the text.
serialize_for_signing-injective_example : SameCommitment signed_tx tx
serialize_for_signing-injective_example =
    serialize_for_signing-injective ext signed_tx tx hexes codec signed_tx-IsSignable tx-IsSignable
      (serialize_for_signing-unsigned ext tx (some (secp256k1 sig_one)) (some alice) [])

serialize_for_signing-unsigned_example :
    serialize_for_signing ext (signed_by sig_one) ≡ serialize_for_signing ext tx
serialize_for_signing-unsigned_example =
    serialize_for_signing-unsigned ext tx (some (secp256k1 sig_one)) (some alice) []

tx_skips : skips_fee_token tx ≡ true
unfolding skips_fee_token
tx_skips = refl

serialize_for_signing-sponsored_example :
    serialize_for_signing ext (record tx { fee_token = none }) ≡ serialize_for_signing ext tx
serialize_for_signing-sponsored_example = serialize_for_signing-sponsored ext tx none tx_skips

sponsored_payload_differs_example :
    serialize_for_signing ext sponsored_tx ≢ serialize_for_signing ext tx
sponsored_payload_differs_example =
    sponsored_payload_differs ext tx sig_one hexes codec tx-IsSignable sponsored_tx-IsSignable refl

verify-sign_example :
    (sig : Signature) × (sign signer digest ≡ ok sig)
    × (signer_verify ext signer digest sig ≡ ok true)
    × (verify_signature ext digest sig (buffer alice) ≡ ok true)
verify-sign_example = verify-sign ext signer acc digest refl

-- The sender's text of the sample transaction.
abbrev sender_text : Str
sender_text = prefixed (codes "0x76") (put (sender_fields tx) [])

serialize_tx : serialize_for_signing ext tx ≡ ok sender_text
unfolding serialize_for_signing
serialize_tx = rw (
    build_rlp_fields_lem tx (skips_fee_token tx) true [] tx-IsNumeric
      (unfold envelope_field in refl))

payloads_apart_example :
    ¬ (serialize_for_fee_payer_signing ext signed_tx (buffer alice) ≡ ok sender_text)
payloads_apart_example = payloads_apart ext tx signed_tx (buffer alice) sender_text serialize_tx
