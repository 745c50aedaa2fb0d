-- ===== src/Samples/Records.antt =====
-- The theorems on signatures, keys, addresses and authorizations, at concrete values.
use tempo_py.Prelude.{
  ◌≡◌, ◌⊎◌, ◌++◌, refl, List, [], ◌∷◌, true, false, none, some, ok, err, value_error, length,
  replicate, take, drop, arith,
}
use tempo_py.Prelude.Int.{pos}
use tempo_py.Python.Bytes.{Bytes, IsBytes, eqb}
use tempo_py.Python.Ints.{from_bytes_after}
use tempo_py.Python.Ints
use tempo_py.External.{int, bytes}
use tempo_py.Builder as Fluent
use tempo_py.Builder.{chain, apply}
use tempo_py.Builder.Laws.{calls_added, build-chain}
use tempo_py.Models.Call.{create_call}
use tempo_py.Types.{buffer, as_bytes, check_address, as_address, as_optional_address}
use tempo_py.Types.Laws.{IsAddress, as_address-IsAddress}
use tempo_py.Models.Signature.{is_r, is_low_s, is_v, is_parity, new, to_bytes, from_bytes}
use tempo_py.Models.Signature.Laws.{IsValid, new_lem}
use tempo_py.Models.Signature.RoundTrip.{canonical, from_bytes-to_bytes, to_bytes-from_bytes}
use tempo_py.Models.TempoTransaction.{
  TempoTransaction, has_sender_signature, has_fee_payer_signature,
}
use tempo_py.Models.TempoTransaction.Laws as TransactionLaws
use tempo_py.Models.TempoTransaction.Laws.{create-IsValid}
use tempo_py.KeychainSignature.{KeychainSignature, from_inner, user_address, inner_signature}
use tempo_py.KeychainSignature as Wrapped
use tempo_py.KeychainSignature.Laws.{from_inner_secp256k1}
use tempo_py.P256.{Envelope, P256Signature, P256Signer, new_p256_signer}
use tempo_py.P256.Layout.{IsEnvelope}
use tempo_py.P256.Signing.{Signs, sign_p256-Signs}
use tempo_py.Keychain.Scopes.{CallScope}
use tempo_py.Keychain.Authorization.{KeyAuthorization, check_authorization, to_rlp}
use tempo_py.Keychain.Checks.{IsAuthorization, check_authorization_lem}
use tempo_py.Keychain.Trailing.{Elements, to_rlp_reads}
use tempo_py.Keychain.Sign.{ecdsa, bare, attach, sign_tx_registered_key}
use tempo_py.Keychain.Verify.{verify-sign_tx_registered_key, verify-attach_p256}
use tempo_py.Transaction.Sign.{verify_signature}
use tempo_py.Samples.Setup.{
  ext, hexes, hashes, codec, signer, acc, alice, bob, sig_one, sig_one-IsValid, tx, tx-IsValid,
  tx-IsSignable, curve, ecc_key, ecc_key-IsEccKey, sha, digest, one,
}

new_lem_example :
    (IsValid sig_one × (new (pos 1) (pos 1) (pos 0) ≡ ok sig_one))
    ⊎ ((¬ IsValid sig_one) × (new (pos 1) (pos 1) (pos 0) ≡ err value_error))
new_lem_example = new_lem (pos 1) (pos 1) (pos 0)

from_bytes-to_bytes_example :
    (b : Bytes) × (to_bytes sig_one ≡ ok b) × (length b ≡ 65) × (from_bytes b ≡ ok sig_one)
from_bytes-to_bytes_example = from_bytes-to_bytes sig_one sig_one-IsValid

-- r = 1, s = 1, v = 0
abbrev packed : Bytes
packed = one ++ (one ++ (0 ∷ []))

packed-IsBytes : IsBytes packed
packed-IsBytes = ground arith

from_bytes-packed : from_bytes packed ≡ ok sig_one
unfolding from_bytes new is_r is_low_s is_v is_parity Ints.from_bytes from_bytes_after
from_bytes-packed = refl

to_bytes-from_bytes_example :
    (length packed ≡ 65) × IsValid sig_one × (to_bytes sig_one ≡ ok packed)
to_bytes-from_bytes_example = to_bytes-from_bytes packed sig_one packed-IsBytes from_bytes-packed

as_address-IsAddress_example : IsAddress alice
as_address-IsAddress_example =
    as_address-IsAddress ext (buffer alice) alice (unfold as_address in refl)

from_inner_secp256k1_example :
    (k : KeychainSignature) × (from_inner ext (Wrapped.secp256k1 sig_one) (buffer alice) ≡ ok k)
    × (length k.raw ≡ 86)
    × (user_address k ≡ alice)
    × (inner_signature k ≡ ok (canonical sig_one))
from_inner_secp256k1_example = from_inner_secp256k1 ext sig_one alice sig_one-IsValid refl

abbrev envelope : Envelope
envelope = record { r = one; s = one; pub_key_x = one; pub_key_y = one }

envelope-IsEnvelope : IsEnvelope envelope
unfolding Ints.from_bytes from_bytes_after
envelope-IsEnvelope = record {
  length_r = refl;
  length_s = refl;
  length_x = refl;
  length_y = refl;
  r_range = (omega arith, omega arith);
  s_range = (omega arith, omega arith);
}

abbrev p256_sig : P256Signature
p256_sig = record { envelope = envelope; pre_hash = true }

abbrev pub p256_signer : P256Signer
p256_signer = record {
  key = ecc_key;
  pub_key_x = replicate 31 0 ++ (2 ∷ []);
  pub_key_y = replicate 31 0 ++ (3 ∷ []);
}

pub new_p256_signer-ecc_key : new_p256_signer ecc_key ≡ ok p256_signer
unfolding new_p256_signer Ints.to_bytes Ints.big_endian
new_p256_signer-ecc_key = refl

sign_p256-Signs_example : Signs ext curve p256_signer digest true
sign_p256-Signs_example =
    sign_p256-Signs ext curve ecc_key p256_signer digest true ecc_key-IsEccKey sha
      new_p256_signer-ecc_key refl

abbrev scope : CallScope
scope = record {
  target = bob;
  selector = 1 ∷ 2 ∷ 3 ∷ 4 ∷ [];
  selector_rules = record { selector = 5 ∷ 6 ∷ 7 ∷ 8 ∷ []; recipients = [] } ∷ [];
}

abbrev authorization : KeyAuthorization
authorization = record {
  key_id = bob;
  chain_id = pos 4217;
  account = some alice;
  key_type = pos 0;
  expiry = pos 0;
  limits = none;
  allowed_calls = some (scope ∷ []);
  witness = [];
  is_admin = false;
}

check_authorization_lem_example :
    (IsAuthorization authorization × (check_authorization authorization ≡ ok tt))
    ⊎ ((¬ IsAuthorization authorization) × (check_authorization authorization ≡ err value_error))
check_authorization_lem_example = check_authorization_lem authorization

to_rlp_reads_example :
    (take 3 (to_rlp authorization) ≡ int (pos 4217) ∷ int (pos 0) ∷ bytes bob ∷ [])
    × Elements authorization (drop 3 (to_rlp authorization))
to_rlp_reads_example = to_rlp_reads authorization refl

verify-sign_tx_registered_key_example :
    (signed : TempoTransaction) × (sign_tx_registered_key ext curve tx
        (ecdsa signer)
        (buffer bob)
        (bare none)
      ≡ ok signed)
    × (signed.sender_address ≡ some bob)
    × (verify_signature ext signed ≡ ok bob)
verify-sign_tx_registered_key_example =
    verify-sign_tx_registered_key ext curve tx bob signer hexes hashes codec tx-IsValid
      tx-IsSignable acc refl

verify-attach_p256_example :
    (signed : TempoTransaction) × (attach ext tx (Wrapped.p256 p256_sig) bob ≡ ok signed)
    × (verify_signature ext signed ≡ err value_error)
verify-attach_p256_example =
    verify-attach_p256 ext tx bob p256_sig hexes hashes codec tx-IsValid tx-IsSignable
      envelope-IsEnvelope refl

-- Two setters and a call, from a new builder.
abbrev setters : List Fluent.Setter
setters =
    Fluent.add_call (buffer bob) (pos 5) (buffer (1 ∷ []))
    ∷ Fluent.fee_token (some (buffer bob))
    ∷ Fluent.nonce (pos 3)
    ∷ []

abbrev built : Fluent.Builder
built = record Fluent.initial {
  calls = record { to = bob; value = pos 5; call_data = 1 ∷ [] } ∷ [];
  fee_token = some bob;
  nonce = pos 3;
}

chain_ok : Fluent.chain ext setters Fluent.initial ≡ ok built
unfolding chain apply create_call as_optional_address as_address as_bytes check_address eqb
chain_ok = refl

build-chain_example :
    (made : TempoTransaction) × (Fluent.build ext built ≡ ok made)
    × TransactionLaws.IsValid made
    × (has_sender_signature made ≡ false)
    × (has_fee_payer_signature made ≡ false)
    × (calls_added ext setters ≡ ok made.calls)
build-chain_example = build-chain ext setters built chain_ok
