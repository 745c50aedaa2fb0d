-- ===== src/Transaction/Signable.antt =====
-- Transactions that can be signed, and why their fields can be encoded.
use tempo_py.Prelude.{
  ◌≡◌, sym, List, [], ◌∷◌, ◌++◌, map, Bool, true, false, Option, none, some, subst, All, length,
  arith, if◌then◌else◌,
}
use tempo_py.Prelude.Int.{ℤ, pos, negsuc, pos_part}
use tempo_py.Python.Bytes.{Bytes, IsBytes}
use tempo_py.Python.Ints.Laws.{big_endian-IsBytes}
use tempo_py.External.{Rlp, bytes, rlps, seq, wire_int, IsEncodable, AreEncodable, IsWireInt}
use tempo_py.Models.Call.{Call}
use tempo_py.Models.Signature.{Signature, to_rlp_list}
use tempo_py.Models.Signature.Laws as SignatureLaws
use tempo_py.Models.Signature.RoundTrip.{y_parity_lem}
use tempo_py.Models.TempoTransaction.{TempoTransaction, AccessEntry, item, foreign}
use tempo_py.Transaction.{
  encode_access_entry, encode_access_list, encode_fee_token, encode_fee_payer_field, or_zero,
  authorization_field,
}
use tempo_py.Transaction.Fields.{IsNumeric, call_field, fields_of}

abbrev pub IsEntry : AccessEntry → Type 0
IsEntry (item i) = (length i.address ≡ 20) × IsBytes i.address × All IsBytes i.storage_keys
IsEntry foreign = Unit

abbrev pub AreBytes : Option Bytes → Type 0
AreBytes none = Unit
AreBytes (some b) = IsBytes b

abbrev pub IsSponsored : Option Signature → Type 0
IsSponsored none = Unit
IsSponsored (some sig) = SignatureLaws.IsValid sig

abbrev pub IsAuthorization : Option Rlp → Type 0
IsAuthorization none = Unit
IsAuthorization (some x) = IsEncodable x

-- A transaction that can be signed: no negative number, and parts as their classes validate them.
pub record IsSignable (tx : TempoTransaction) : Type 0 where
  pub numeric : IsNumeric tx
  pub call_bytes : All (λ (c : Call). IsBytes c.to × IsBytes c.call_data) tx.calls
  pub entries : All IsEntry tx.access_list
  pub token : AreBytes tx.fee_token
  pub sponsored : IsSponsored tx.fee_payer_signature
  pub authorization : IsAuthorization tx.key_authorization

wire_int-IsBytes : (n : ℤ) → IsBytes (wire_int n)
wire_int-IsBytes (pos n) = big_endian-IsBytes _ n
wire_int-IsBytes (negsuc n) = tt

calls-AreEncodable :
    (cs : List Call)
    → All (λ (c : Call). IsBytes c.to × IsBytes c.call_data) cs
    → AreEncodable (rlps (map call_field cs))
unfolding IsEncodable AreEncodable
calls-AreEncodable [] h = tt
calls-AreEncodable (c ∷ cs) h =
    ((h.0.0, (wire_int-IsBytes c.value, (h.0.1, tt))), calls-AreEncodable cs h.1)

keys-AreEncodable : (ks : List Bytes) → All IsBytes ks → AreEncodable (rlps (map bytes ks))
unfolding IsEncodable AreEncodable
keys-AreEncodable [] h = tt
keys-AreEncodable (k ∷ ks) h = (h.0, keys-AreEncodable ks h.1)

entries-AreEncodable :
    (es : List AccessEntry) → All IsEntry es → AreEncodable (rlps (map encode_access_entry es))
unfolding IsEncodable AreEncodable encode_access_entry
entries-AreEncodable [] h = tt
entries-AreEncodable (item i ∷ es) h =
    ((h.0.1, (keys-AreEncodable i.storage_keys h.0.2, tt)), entries-AreEncodable es h.1)
entries-AreEncodable (foreign ∷ es) h = ((tt, (tt, tt)), entries-AreEncodable es h.1)

token-IsBytes :
    (tx : TempoTransaction) (skip : Bool) → IsSignable tx → IsBytes (encode_fee_token tx skip)
unfolding encode_fee_token
token-IsBytes tx skip h = go tx.fee_token h.token skip
  where
    go :
        (o : Option Bytes)
        → AreBytes o
        → (skip : Bool) → IsBytes (elim o [ none ↦ [] | some token ↦ if skip then [] else token ])
    go none p skip = tt
    go (some b) p true = tt
    go (some b) p false = p

IsWireInt-pos_part : (n : ℤ) → n ≡ pos (pos_part n) → IsWireInt n
IsWireInt-pos_part n e = subst IsWireInt (sym e) tt

to_rlp_list-IsEncodable :
    (sig : Signature) → SignatureLaws.IsValid sig → IsEncodable (to_rlp_list sig)
unfolding IsEncodable AreEncodable to_rlp_list
to_rlp_list-IsEncodable sig h = (
  IsWireInt-pos_part _ (y_parity_lem sig h).0,
  (IsWireInt-pos_part sig.r h.r_pos, (IsWireInt-pos_part sig.s h.s_pos, tt)),
)

fee_payer_field-IsEncodable :
    (tx : TempoTransaction) → IsSignable tx → IsEncodable (encode_fee_payer_field tx)
unfolding encode_fee_payer_field
fee_payer_field-IsEncodable tx h = go tx.fee_payer_signature h.sponsored tx.awaiting_fee_payer
  where
    go :
        (o : Option Signature)
        → IsSponsored o
        → (awaiting : Bool)
        → IsEncodable (elim o [
          | some sig ↦ to_rlp_list sig
          | none ↦ if awaiting then bytes (0 ∷ []) else bytes []
        ])
    go (some sig) p awaiting = to_rlp_list-IsEncodable sig p
    go none p true = unfold IsEncodable in omega arith
    go none p false = unfold IsEncodable in tt

authorization-AreEncodable :
    (o : Option Rlp) (envelope : List Rlp)
    → IsAuthorization o
    → AreEncodable (rlps envelope)
    → AreEncodable (rlps (authorization_field o ++ envelope))
unfolding authorization_field AreEncodable
authorization-AreEncodable none envelope h e = e
authorization-AreEncodable (some x) envelope h e = (h, e)

-- Every field of a transaction that can be signed can be encoded.
pub fields_of-IsEncodable :
    (tx : TempoTransaction) (skip : Bool) (envelope : List Rlp)
    → IsSignable tx
    → AreEncodable (rlps envelope)
    → IsEncodable (seq (fields_of tx skip envelope))
unfolding IsEncodable AreEncodable encode_access_list
fields_of-IsEncodable tx skip envelope h e = (
  wire_int-IsBytes tx.chain_id,
  (
    wire_int-IsBytes tx.max_priority_fee_per_gas,
    (
      wire_int-IsBytes tx.max_fee_per_gas,
      (
        wire_int-IsBytes tx.gas_limit,
        (
          calls-AreEncodable tx.calls h.call_bytes,
          (
            entries-AreEncodable tx.access_list h.entries,
            (
              wire_int-IsBytes tx.nonce_key,
              (
                wire_int-IsBytes tx.nonce,
                (
                  wire_int-IsBytes (or_zero tx.valid_before),
                  (
                    wire_int-IsBytes (or_zero tx.valid_after),
                    (
                      token-IsBytes tx skip h,
                      (
                        fee_payer_field-IsEncodable tx h,
                        (
                          tt,
                          authorization-AreEncodable tx.key_authorization envelope h.authorization
                              e,
                        ),
                      ),
                    ),
                  ),
                ),
              ),
            ),
          ),
        ),
      ),
    ),
  ),
)
