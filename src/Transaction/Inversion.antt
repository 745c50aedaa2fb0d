-- ===== src/Transaction/Inversion.antt =====
-- A field list that was built tells that no number of the transaction is negative.
use tempo_py.Prelude.{
  ◌≡◌, sym, ◌∙◌, List, Bool, Result, ok, ◌>>=◌, >>=-eq-ok, ok-injective, traverse,
}
use tempo_py.Prelude.Int.{ℤ}
use tempo_py.Python.Bytes.{Bytes}
use tempo_py.External.{Rlp}
use tempo_py.Models.TempoTransaction.{TempoTransaction}
use tempo_py.Transaction.{
  int_to_rlp_bytes, bigint_to_rlp_bytes, encode_call, encode_calls, or_zero, envelope_field,
  build_rlp_fields,
}
use tempo_py.Transaction.Fields.{
  IsNonneg, int_to_rlp_bytes-eq-ok, IsNumeric, traverse_calls-eq-ok, fields_of,
  build_rlp_fields_lem,
}

-- What a bound number gives to the rest of the chain.
number_bound {ℓ} :
    {B : Type ℓ} (n : ℤ) (f : Bytes → Result B) {b : B}
    → (int_to_rlp_bytes n >>= f) ≡ ok b
    → (x : Bytes) × IsNonneg n × (f x ≡ ok b)
number_bound n f h =
    let (x, e, g) = >>=-eq-ok (int_to_rlp_bytes n) f h in (x, (int_to_rlp_bytes-eq-ok n x e).0, g)

-- Building succeeds only on a transaction without negative numbers, and the fields are those of
-- the closed form.
pub build_rlp_fields-eq-ok :
    (tx : TempoTransaction) (skip drop : Bool) (fields : List Rlp)
    → build_rlp_fields tx skip drop ≡ ok fields
    → IsNumeric tx
      × ((envelope : List Rlp) × (envelope_field drop tx.sender_signature ≡ ok envelope)
          × (fields ≡ fields_of tx skip envelope))
unfolding build_rlp_fields bigint_to_rlp_bytes encode_calls
build_rlp_fields-eq-ok tx skip drop fields h =
    let (_, p0, h0) = number_bound tx.chain_id _ h in
    let (_, p1, h1) = number_bound tx.max_priority_fee_per_gas _ h0 in
    let (_, p2, h2) = number_bound tx.max_fee_per_gas _ h1 in
    let (_, p3, h3) = number_bound tx.gas_limit _ h2 in
    let (cs, e4, h4) = >>=-eq-ok (encode_calls tx.calls) _ h3 in
    let (xs, f4, _) = >>=-eq-ok (traverse encode_call tx.calls) _ e4 in
    let (_, p6, h6) = number_bound tx.nonce_key _ h4 in
    let (_, p7, h7) = number_bound tx.nonce _ h6 in
    let (_, p8, h8) = number_bound (or_zero tx.valid_before) _ h7 in
    let (_, p9, h9) = number_bound (or_zero tx.valid_after) _ h8 in
    let (env, e, _) = >>=-eq-ok (envelope_field drop tx.sender_signature) _ h9 in
    let numeric : IsNumeric tx = record {
      chain_id = p0;
      priority_fee = p1;
      max_fee = p2;
      gas = p3;
      calls = traverse_calls-eq-ok tx.calls xs f4;
      nonce_key = p6;
      nonce = p7;
      valid_before = p8;
      valid_after = p9;
    } in
    (numeric, (env, e, ok-injective (sym h ∙ build_rlp_fields_lem tx skip drop env numeric e)))
