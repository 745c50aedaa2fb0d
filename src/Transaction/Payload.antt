-- ===== src/Transaction/Payload.antt =====
-- What the sender and the fee payer sign: the serialized text, its bytes, and its hash.
use tempo_py.Prelude.{
  ℕ, zero, suc, ◌≡◌, refl, sym, ◌∙◌, ap, List, [], ◌∷◌, set, true, false, ok, ok-injective, arith,
  length, inr,
}
use tempo_py.Python.Bytes.{Bytes, IsBytes, codes, hex}
use tempo_py.External.{
  External, Rlp, bytes, rlps, seq, IsHexReader, IsRlp, IsEncodable, AreEncodable, wire,
}
use tempo_py.Types.{Address, buffer}
use tempo_py.Types.Laws.{as_address_lem}
use tempo_py.Models.TempoTransaction.{TempoTransaction}
use tempo_py.Transaction.{
  envelope_field, skips_fee_token, prefixed, serialize_for_signing, serialize_for_fee_payer_signing,
  compute_hash, get_sign_payload, get_fee_payer_sign_payload,
}
use tempo_py.Transaction.Fields.{fields_of, build_rlp_fields_lem}
use tempo_py.Transaction.Signable.{IsSignable, fields_of-IsEncodable}
use mathlib.Core.Option.{some}

set-AreEncodable :
    (xs : List Rlp) (i : ℕ) (v : Rlp)
    → AreEncodable (rlps xs)
    → IsEncodable v
    → AreEncodable (rlps (set xs i v))
unfolding AreEncodable
set-AreEncodable [] i v h hv = tt
set-AreEncodable (x ∷ xs) zero v h hv = (hv, h.1)
set-AreEncodable (x ∷ xs) (suc i) v h hv = (h.0, set-AreEncodable xs i v h.1 hv)

no_envelope : (tx : TempoTransaction) → envelope_field true tx.sender_signature ≡ ok []
unfolding envelope_field
no_envelope tx = ground arith

-- The objects that are encoded for the sender and for the fee payer.
abbrev pub sender_fields : TempoTransaction → Rlp
sender_fields tx = seq (fields_of tx (skips_fee_token tx) [])

abbrev pub fee_payer_fields : TempoTransaction → Address → Rlp
fee_payer_fields tx sender = seq (set (fields_of tx false []) 11 (bytes sender))

abbrev pub sender_prefix : ℕ
sender_prefix = 0x76

abbrev pub fee_payer_prefix : ℕ
fee_payer_prefix = 0x78

-- The text with a prefix is the hexadecimal form of the bytes with that first byte.
prefixed_sender :
    (e : Bytes) → prefixed (codes "0x76") e ≡ prefixed (codes "0x") (sender_prefix ∷ e)
unfolding prefixed hex
prefixed_sender e = refl

prefixed_fee_payer :
    (e : Bytes) → prefixed (codes "0x78") e ≡ prefixed (codes "0x") (fee_payer_prefix ∷ e)
unfolding prefixed hex
prefixed_fee_payer e = refl

module _ (ext : External) (hexes : IsHexReader ext) where
  pub to_bytes-prefixed :
      (b : Bytes) → IsBytes b → ext.to_bytes_hex (prefixed (codes "0x") b) ≡ ok b
  unfolding prefixed
  to_bytes-prefixed b h = hexes.to_bytes-hex b h

  -- Texts of bytes are equal only where the bytes are.
  pub prefixed-injective :
      (a b : Bytes)
      → IsBytes a
      → IsBytes b
      → prefixed (codes "0x") a ≡ prefixed (codes "0x") b
      → a ≡ b
  prefixed-injective a b ha hb e =
      ok-injective (sym (to_bytes-prefixed a ha) ∙ ap ext.to_bytes_hex e ∙ to_bytes-prefixed b hb)

  hash_lem :
      (b : Bytes) → IsBytes b → compute_hash ext (prefixed (codes "0x") b) ≡ ok (ext.keccak b)
  unfolding compute_hash
  hash_lem b h = rw (to_bytes-prefixed b h)

  module _ (codec : IsRlp ext) (tx : TempoTransaction) (h : IsSignable tx) where
    -- The sender's text is 0x76 and an encoding of `sender_fields`; the payload is its hash.
    pub serialize_for_signing_lem :
        (e : Bytes) × (serialize_for_signing ext tx
          ≡ ok (prefixed (codes "0x") (sender_prefix ∷ e)))
        × IsBytes (sender_prefix ∷ e)
        × (codec.rlp_decode e ≡ some (wire (sender_fields tx)))
    unfolding serialize_for_signing
    serialize_for_signing_lem =
        let (e, enc, all, dec) =
          codec.encode_lem (sender_fields tx)
            (fields_of-IsEncodable tx (skips_fee_token tx) [] h (unfold AreEncodable in tt)) in
        let built =
          build_rlp_fields_lem tx (skips_fee_token tx) true [] h.numeric (no_envelope tx) in
        (e, rw (built, enc, prefixed_sender e), (omega arith, all), dec)

    pub get_sign_payload_lem : (b : Bytes) × (get_sign_payload ext tx ≡ ok (ext.keccak b))
    unfolding get_sign_payload
    get_sign_payload_lem =
        let (e, s, all, _) = serialize_for_signing_lem in
        (sender_prefix ∷ e, rw s (hash_lem (sender_prefix ∷ e) all))

    module _ (sender : Address) (n : length sender ≡ 20) (all_bytes : IsBytes sender) where
      pub serialize_for_fee_payer_signing_lem :
          (e : Bytes) × (serialize_for_fee_payer_signing ext tx (buffer sender)
            ≡ ok (prefixed (codes "0x") (fee_payer_prefix ∷ e)))
          × IsBytes (fee_payer_prefix ∷ e)
          × (codec.rlp_decode e ≡ some (wire (fee_payer_fields tx sender)))
      unfolding serialize_for_fee_payer_signing
      serialize_for_fee_payer_signing_lem =
          let fields = fields_of-IsEncodable tx false [] h (unfold AreEncodable in tt) in
          let (e, enc, all, dec) = codec.encode_lem (fee_payer_fields tx sender) (
            unfold IsEncodable in
            set-AreEncodable (fields_of tx false []) 11 (bytes sender) fields all_bytes) in
          let built = build_rlp_fields_lem tx false true [] h.numeric (no_envelope tx) in
          (
            e,
            rw (built, as_address_lem ext sender (inr n), enc, prefixed_fee_payer e),
            (omega arith, all),
            dec,
          )

      pub get_fee_payer_sign_payload_lem :
          (b : Bytes) × (get_fee_payer_sign_payload ext tx (buffer sender) ≡ ok (ext.keccak b))
      unfolding get_fee_payer_sign_payload
      get_fee_payer_sign_payload_lem =
          let (e, s, all, _) = serialize_for_fee_payer_signing_lem in
          (fee_payer_prefix ∷ e, rw s (hash_lem (fee_payer_prefix ∷ e) all))
