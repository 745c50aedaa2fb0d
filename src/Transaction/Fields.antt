-- ===== src/Transaction/Fields.antt =====
-- The field list of a transaction in closed form: when it is built, and what stands in it.
use tempo_py.Prelude.{
  ◌≡◌, refl, sym, ◌∙◌, List, [], ◌∷◌, ◌++◌, map, Bool, ok, >>=-eq-ok, ok-injective, ok-ne-err, All,
  traverse,
}
use tempo_py.Prelude.Int.{ℤ, pos, negsuc}
use tempo_py.Python.Bytes.{Bytes}
use tempo_py.External.{Rlp, bytes, seq, wire_int, IsWireInt}
use tempo_py.Models.Call.{Call}
use tempo_py.Models.TempoTransaction.{TempoTransaction}
use tempo_py.Transaction.{
  int_to_rlp_bytes, bigint_to_rlp_bytes, or_empty, encode_call, encode_calls, encode_access_list,
  encode_fee_token, encode_fee_payer_field, or_zero, authorization_field, envelope_field,
  build_rlp_fields,
}
use tempo_py.Transaction.Ints.{int_to_rlp_bytes-pos, int_to_rlp_bytes-negsuc}

abbrev pub IsNonneg : ℤ → Type 0
IsNonneg n = IsWireInt n

pub int_to_rlp_bytes-nonneg : (n : ℤ) → IsNonneg n → int_to_rlp_bytes n ≡ ok (wire_int n)
int_to_rlp_bytes-nonneg (pos n) h = int_to_rlp_bytes-pos n
int_to_rlp_bytes-nonneg (negsuc n) h = absurd h

pub int_to_rlp_bytes-eq-ok :
    (n : ℤ) (b : Bytes) → int_to_rlp_bytes n ≡ ok b → IsNonneg n × (wire_int n ≡ b)
int_to_rlp_bytes-eq-ok (pos n) b h = (tt, ok-injective (sym (int_to_rlp_bytes-pos n) ∙ h))
int_to_rlp_bytes-eq-ok (negsuc n) b h = absurd (ok-ne-err (sym h ∙ int_to_rlp_bytes-negsuc n))

or_empty_lem : (b : Bytes) → or_empty b ≡ b
unfolding or_empty
or_empty_lem [] = refl
or_empty_lem (x ∷ b) = refl

-- `[to, value, data]` on the wire.
abbrev pub call_field : Call → Rlp
call_field c = seq (bytes c.to ∷ bytes (wire_int c.value) ∷ bytes c.call_data ∷ [])

abbrev pub IsCall : Call → Type 0
IsCall c = IsNonneg c.value

encode_call_lem : (c : Call) → IsCall c → encode_call c ≡ ok (call_field c)
unfolding encode_call
encode_call_lem c h =
    rw (int_to_rlp_bytes-nonneg c.value h, or_empty_lem c.to, or_empty_lem c.call_data)

encode_call-eq-ok : (c : Call) (x : Rlp) → encode_call c ≡ ok x → IsCall c × (call_field c ≡ x)
unfolding encode_call
encode_call-eq-ok c x h =
    let (b, e, f) = >>=-eq-ok (int_to_rlp_bytes c.value) _ h in
    let (nonneg, _) = int_to_rlp_bytes-eq-ok c.value b e in
    (nonneg, ok-injective (sym (encode_call_lem c nonneg) ∙ h))

pub traverse_calls :
    (cs : List Call) → All IsCall cs → traverse encode_call cs ≡ ok (map call_field cs)
traverse_calls [] h = refl
traverse_calls (c ∷ cs) h = rw (encode_call_lem c h.0, traverse_calls cs h.1)

pub traverse_calls-eq-ok :
    (cs : List Call) (xs : List Rlp) → traverse encode_call cs ≡ ok xs → All IsCall cs
traverse_calls-eq-ok [] xs h = tt
traverse_calls-eq-ok (c ∷ cs) xs h =
    let (x, e, f) = >>=-eq-ok (encode_call c) _ h in
    let (ys, g, _) = >>=-eq-ok (traverse encode_call cs) _ f in
    ((encode_call-eq-ok c x e).0, traverse_calls-eq-ok cs ys g)

-- No number of the transaction is negative.
pub record IsNumeric (tx : TempoTransaction) : Type 0 where
  pub chain_id : IsNonneg tx.chain_id
  pub priority_fee : IsNonneg tx.max_priority_fee_per_gas
  pub max_fee : IsNonneg tx.max_fee_per_gas
  pub gas : IsNonneg tx.gas_limit
  pub calls : All IsCall tx.calls
  pub nonce_key : IsNonneg tx.nonce_key
  pub nonce : IsNonneg tx.nonce
  pub valid_before : IsNonneg (or_zero tx.valid_before)
  pub valid_after : IsNonneg (or_zero tx.valid_after)

-- The list that is built, behind whose 13 fields the authorization and the envelope may stand.
abbrev pub fields_of : TempoTransaction → Bool → List Rlp → List Rlp
fields_of tx skip envelope =
    bytes (wire_int tx.chain_id)
    ∷ bytes (wire_int tx.max_priority_fee_per_gas)
    ∷ bytes (wire_int tx.max_fee_per_gas)
    ∷ bytes (wire_int tx.gas_limit)
    ∷ seq (map call_field tx.calls)
    ∷ encode_access_list tx.access_list
    ∷ bytes (wire_int tx.nonce_key)
    ∷ bytes (wire_int tx.nonce)
    ∷ bytes (wire_int (or_zero tx.valid_before))
    ∷ bytes (wire_int (or_zero tx.valid_after))
    ∷ bytes (encode_fee_token tx skip)
    ∷ encode_fee_payer_field tx
    ∷ seq []
    ∷ (authorization_field tx.key_authorization ++ envelope)

pub build_rlp_fields_lem :
    (tx : TempoTransaction) (skip drop : Bool) (envelope : List Rlp)
    → IsNumeric tx
    → envelope_field drop tx.sender_signature ≡ ok envelope
    → build_rlp_fields tx skip drop ≡ ok (fields_of tx skip envelope)
unfolding build_rlp_fields bigint_to_rlp_bytes encode_calls
build_rlp_fields_lem tx skip drop envelope h e = rw (
  int_to_rlp_bytes-nonneg tx.chain_id h.chain_id,
  int_to_rlp_bytes-nonneg tx.max_priority_fee_per_gas h.priority_fee,
  int_to_rlp_bytes-nonneg tx.max_fee_per_gas h.max_fee,
  int_to_rlp_bytes-nonneg tx.gas_limit h.gas,
  traverse_calls tx.calls h.calls,
  int_to_rlp_bytes-nonneg tx.nonce_key h.nonce_key,
  int_to_rlp_bytes-nonneg tx.nonce h.nonce,
  int_to_rlp_bytes-nonneg (or_zero tx.valid_before) h.valid_before,
  int_to_rlp_bytes-nonneg (or_zero tx.valid_after) h.valid_after,
  e,
)
