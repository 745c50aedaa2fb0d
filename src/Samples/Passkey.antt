-- ===== src/Samples/Passkey.antt =====
-- Passkey assertions at a concrete key, whose origin has a quote and a character behind the 16 bits.
use tempo_py.Prelude.{refl, [], ◌∷◌, ◌++◌, Option, some, none, arith}
use tempo_py.Python.Bytes.{Str, codes}
use tempo_py.Python.Json.Objects.{IsText}
use tempo_py.P256.WebAuthn.{origin_or}
use tempo_py.Keychain.Passkey.{SignsPasskey, sign_tx_registered_key-SignsPasskey}
use tempo_py.Samples.Setup.{
  ext, hexes, hashes, codec, bob, tx, tx-IsValid, tx-IsSignable, curve, ecc_key, ecc_key-IsEccKey,
  sha,
}
use tempo_py.Samples.Records.{p256_signer, new_p256_signer-ecc_key}

abbrev rp_id : Str
rp_id = codes "example"

abbrev origin : Option Str
origin = some (codes "a\"b" ++ (0x1F511 ∷ []))

rp_id-IsText : IsText rp_id
rp_id-IsText = ground arith

sign_tx_registered_key-SignsPasskey_example :
    SignsPasskey ext curve tx p256_signer bob rp_id none 5 7
sign_tx_registered_key-SignsPasskey_example =
    sign_tx_registered_key-SignsPasskey ext curve tx ecc_key p256_signer bob rp_id none 5 7 hexes
      hashes codec tx-IsValid tx-IsSignable refl ecc_key-IsEccKey sha new_p256_signer-ecc_key
      rp_id-IsText (unfold origin_or in ground arith) (omega arith) (omega arith)
