-- ===== src/Signer/Laws.antt =====
-- A signature is recovered to the address of the key that made it.
use tempo_py.Prelude.{◌≡◌, refl, ◌∙◌, true, not, ◌||◌, inr, ok, ◌>>=◌, length, arith}
use tempo_py.Prelude.Int.{pos, leb_ℤ, ltb_ℤ}
use tempo_py.Python.Bytes.{Bytes, eqb_refl}
use tempo_py.External.{External, Account, RawSignature}
use tempo_py.Types.{Address, buffer}
use tempo_py.Types.Laws.{as_address_lem}
use tempo_py.Models.Signature.{
  Signature, secp256k1_n, secp256k1_half_n, to_bytes, to_canonical_bytes,
}
use tempo_py.Models.Signature.Laws.{IsValid, new-IsValid, is_v_lem}
use tempo_py.Models.Signature.RoundTrip.{
  canonical, canonical-IsValid, from_bytes-to_bytes, from_bytes-to_canonical_bytes,
}
use tempo_py.Signer.{Signer, address, sign, recover_address, signer_verify, verify_signature}

abbrev pub raw_of : Signature → RawSignature
raw_of sig = record { r = sig.r; s = sig.s; v = sig.v }

-- What eth_account documents of an account: its address is the hexadecimal form of 20 bytes; it
-- signs every 32-byte hash with r, s and v in range and s in low form; and recovering the
-- signature over that hash, with v as made or in {27, 28}, gives the account's address.
pub record IsAccount (ext : External) (account : Account) : Type 0 where
  pub address_bytes : Address
  pub length-address : length address_bytes ≡ 20
  pub to_bytes-address : ext.to_bytes_hex account.address ≡ ok address_bytes
  pub signature : Bytes → Signature
  pub sign-eq-ok : (h : Bytes) → length h ≡ 32 → account.sign_msg_hash h ≡ ok (raw_of (signature h))
  pub signature-IsValid : (h : Bytes) → length h ≡ 32 → IsValid (signature h)
  pub recover-to_bytes :
      (h b : Bytes)
      → length h ≡ 32
      → to_bytes (signature h) ≡ ok b
      → ext.recover_hash h b ≡ ok account.address
  pub recover-to_canonical_bytes :
      (h b : Bytes)
      → length h ≡ 32
      → to_canonical_bytes (signature h) ≡ ok b
      → ext.recover_hash h b ≡ ok account.address

-- A valid signature passes the tests of `recover_address`, and its bytes are what is recovered.
pub recover_address_lem :
    (ext : External) (h : Bytes) (sig : Signature)
    → IsValid sig
    → recover_address ext h sig
      ≡ (to_bytes sig >>= λ b. ext.recover_hash h b >>= λ r. ext.to_bytes_hex r)
unfolding recover_address to_bytes
recover_address_lem ext h sig v =
    let r_ok : not (leb_ℤ sig.r (pos 0) || leb_ℤ (pos secp256k1_n) sig.r) ≡ true = ground arith in
    let s_ok : not (leb_ℤ sig.s (pos 0) || ltb_ℤ (pos secp256k1_half_n) sig.s) ≡ true =
      ground arith in
    rw (r_ok, s_ok, (is_v_lem sig.v).1 v.v_in)

to_bytes-canonical : (sig : Signature) → to_bytes (canonical sig) ≡ to_canonical_bytes sig
unfolding to_bytes to_canonical_bytes
to_bytes-canonical sig = refl

module _ (ext : External) (signer : Signer) (acc : IsAccount ext signer.account) where
  pub address_lem : address ext signer ≡ ok acc.address_bytes
  unfolding address
  address_lem = acc.to_bytes-address

  pub sign_lem : (h : Bytes) → length h ≡ 32 → sign signer h ≡ ok (acc.signature h)
  unfolding sign
  sign_lem h n = rw (acc.sign-eq-ok h n) (new-IsValid (acc.signature h) (acc.signature-IsValid h n))

  pub recover-signature :
      (h : Bytes) → length h ≡ 32 → recover_address ext h (acc.signature h) ≡ ok acc.address_bytes
  recover-signature h n =
      let valid = acc.signature-IsValid h n in
      let (b, e, _, _) = from_bytes-to_bytes (acc.signature h) valid in
      recover_address_lem ext h (acc.signature h) valid
      ∙ rw (e, acc.recover-to_bytes h b n e) acc.to_bytes-address

  pub recover-canonical :
      (h : Bytes)
      → length h ≡ 32
      → recover_address ext h (canonical (acc.signature h)) ≡ ok acc.address_bytes
  recover-canonical h n =
      let sig = acc.signature h in
      let valid = acc.signature-IsValid h n in
      let (b, e, _, _, _) = from_bytes-to_canonical_bytes sig valid in
      recover_address_lem ext h (canonical sig) (canonical-IsValid sig valid)
      ∙ rw (to_bytes-canonical sig ∙ e, acc.recover-to_canonical_bytes h b n e) acc.to_bytes-address

  -- A signer with an account as eth_account documents it accepts every signature that it made over
  -- a 32-byte hash, as does the module's
  -- `verify_signature` at the signer's address.
  pub verify-sign :
      (h : Bytes)
      → length h ≡ 32
      → (sig : Signature) × (sign signer h ≡ ok sig)
        × (signer_verify ext signer h sig ≡ ok true)
        × (verify_signature ext h sig (buffer acc.address_bytes) ≡ ok true)
  unfolding signer_verify verify_signature
  verify-sign h n = (
    acc.signature h,
    sign_lem h n,
    rw (recover-signature h n, address_lem, eqb_refl acc.address_bytes),
    rw (
      recover-signature h n,
      as_address_lem ext acc.address_bytes (inr acc.length-address),
      eqb_refl acc.address_bytes,
    ),
  )
