-- ===== src/Transaction/Commit.antt =====
-- What a signature of the sender commits to.
use tempo_py.Prelude.{
  ℕ, zero, suc, ◌≡◌, refl, sym, ◌∙◌, ap, List, [], ◌∷◌, ◌++◌, map, set, >>=-eq-ok, true, false,
  Option, none, some, ok, ok-injective, length, All, arith,
}
use tempo_py.Prelude.Int.{ℤ, pos, negsuc}
use tempo_py.Python.Bytes.{Bytes, Str}
use tempo_py.External.{
  External, Rlp, Rlps, bytes, int, list, nil, cons, rlps, seq, wire, wires, wire_int, IsHexReader,
  IsRlp,
}
use tempo_py.Models.Call.{Call}
use tempo_py.Models.TempoTransaction.{TempoTransaction, AccessEntry, item, foreign}
use tempo_py.Transaction.{
  encode_access_entry, encode_access_list, encode_fee_token, encode_fee_payer_field,
  authorization_field, or_zero, skips_fee_token, serialize_for_signing,
  serialize_for_fee_payer_signing, prefixed, build_rlp_fields,
}
use tempo_py.Transaction.Fields.{IsNonneg, IsCall, call_field}
use tempo_py.Transaction.Ints.{from_bytes-wire_int}
use tempo_py.Transaction.Signable.{IsSignable, IsEntry}
use tempo_py.Transaction.Payload.{
  serialize_for_signing_lem, prefixed-injective, sender_fields, sender_prefix,
}
use tempo_py.Python.Ints.{from_bytes}
use tempo_py.Types.{BytesLike, as_address}
use mathlib.Core.Option
use mathlib.Core.Option.{some-injective}

-- Two transactions agree in all that the sender's payload holds. A validity bound of 0 counts as
-- none; the fee token counts where it is not skipped; the fee payer field is the fee payer's
-- signature, the marker of a transaction that awaits one, or nothing.
pub record SameCommitment (tx tx' : TempoTransaction) : Type 0 where
  pub chain_id : tx.chain_id ≡ tx'.chain_id
  pub priority_fee : tx.max_priority_fee_per_gas ≡ tx'.max_priority_fee_per_gas
  pub max_fee : tx.max_fee_per_gas ≡ tx'.max_fee_per_gas
  pub gas : tx.gas_limit ≡ tx'.gas_limit
  pub calls : tx.calls ≡ tx'.calls
  pub access_list : tx.access_list ≡ tx'.access_list
  pub nonce_key : tx.nonce_key ≡ tx'.nonce_key
  pub nonce : tx.nonce ≡ tx'.nonce
  pub valid_before : or_zero tx.valid_before ≡ or_zero tx'.valid_before
  pub valid_after : or_zero tx.valid_after ≡ or_zero tx'.valid_after
  pub token : encode_fee_token tx (skips_fee_token tx) ≡ encode_fee_token tx' (skips_fee_token tx')
  pub fee_payer : wire (encode_fee_payer_field tx) ≡ wire (encode_fee_payer_field tx')
  pub authorization : Option.map wire tx.key_authorization ≡ Option.map wire tx'.key_authorization

bytes-injective : {a b : Bytes} → bytes a ≡ bytes b → a ≡ b
bytes-injective h = cc

wire_int-injective : (m n : ℤ) → IsNonneg m → IsNonneg n → wire_int m ≡ wire_int n → m ≡ n
wire_int-injective (pos m) (pos n) hm hn e =
    ap pos (sym (from_bytes-wire_int m) ∙ ap from_bytes e ∙ from_bytes-wire_int n)
wire_int-injective (negsuc m) n hm hn e = absurd hm
wire_int-injective (pos m) (negsuc n) hm hn e = absurd hn

-- The field of a number determines it.
number_field : (m n : ℤ) → IsNonneg m → IsNonneg n → bytes (wire_int m) ≡ bytes (wire_int n) → m ≡ n
number_field m n hm hn e = wire_int-injective m n hm hn (bytes-injective e)

call_field-injective :
    (c d : Call) → IsCall c → IsCall d → wire (call_field c) ≡ wire (call_field d) → c ≡ d
unfolding wire wires
call_field-injective c d hc hd e =
    let v : c.value ≡ d.value = wire_int-injective c.value d.value hc hd (cc) in
    let t : c.to ≡ d.to = cc in
    let p : c.call_data ≡ d.call_data = cc in λ i. record { to = t i; value = v i; call_data = p i }

calls-injective :
    (cs ds : List Call)
    → All IsCall cs
    → All IsCall ds
    → wires (rlps (map call_field cs)) ≡ wires (rlps (map call_field ds))
    → cs ≡ ds
unfolding wires
calls-injective [] [] hc hd e = refl
calls-injective [] (d ∷ ds) hc hd e = cc
calls-injective (c ∷ cs) [] hc hd e = cc
calls-injective (c ∷ cs) (d ∷ ds) hc hd e =
    cc (call_field-injective c d hc.0 hd.0 (cc), calls-injective cs ds hc.1 hd.1 (cc))

keys-injective :
    (ks ls : List Bytes) → wires (rlps (map bytes ks)) ≡ wires (rlps (map bytes ls)) → ks ≡ ls
unfolding wire wires
keys-injective [] [] e = refl
keys-injective [] (l ∷ ls) e = cc
keys-injective (k ∷ ks) [] e = cc
keys-injective (k ∷ ks) (l ∷ ls) e = cc (keys-injective ks ls (cc))

entry-injective :
    (a b : AccessEntry)
    → IsEntry a
    → IsEntry b
    → wire (encode_access_entry a) ≡ wire (encode_access_entry b)
    → a ≡ b
unfolding encode_access_entry wire wires
entry-injective (item i) (item j) ha hb e =
    let a : i.address ≡ j.address = cc in
    let k : i.storage_keys ≡ j.storage_keys = keys-injective i.storage_keys j.storage_keys (cc) in
    λ t. item (record { address = a t; storage_keys = k t })
entry-injective (item i) foreign ha hb e =
    let a : i.address ≡ [] = cc in absurd (omega (arith, ha.0, ap (λ (b : Bytes). length b) a))
entry-injective foreign (item j) ha hb e =
    let a : j.address ≡ [] = cc in absurd (omega (arith, hb.0, ap (λ (b : Bytes). length b) a))
entry-injective foreign foreign ha hb e = refl

entries-injective :
    (xs ys : List AccessEntry)
    → All IsEntry xs
    → All IsEntry ys
    → wires (rlps (map encode_access_entry xs)) ≡ wires (rlps (map encode_access_entry ys))
    → xs ≡ ys
unfolding wires
entries-injective [] [] ha hb e = refl
entries-injective [] (b ∷ ys) ha hb e = cc
entries-injective (a ∷ xs) [] ha hb e = cc
entries-injective (a ∷ xs) (b ∷ ys) ha hb e =
    cc (entry-injective a b ha.0 hb.0 (cc), entries-injective xs ys ha.1 hb.1 (cc))

authorization-injective :
    (a b : Option Rlp)
    → wires (rlps (authorization_field a ++ [])) ≡ wires (rlps (authorization_field b ++ []))
    → Option.map wire a ≡ Option.map wire b
unfolding authorization_field wires
authorization-injective none none e = refl
authorization-injective none (some b) e = cc
authorization-injective (some a) none e = cc
authorization-injective (some a) (some b) e = cc

-- The i-th element of a list, and what stands from it on.
abbrev nth_of : ℕ → Rlps → Rlp
nth_of i nil = list nil
nth_of zero (cons x xs) = x
nth_of (suc i) (cons x xs) = nth_of i xs

abbrev nth : ℕ → Rlp → Rlp
nth i (list xs) = nth_of i xs
nth i (bytes b) = list nil
nth i (int n) = list nil

abbrev rest_of : ℕ → Rlps → Rlps
rest_of zero xs = xs
rest_of (suc i) nil = nil
rest_of (suc i) (cons x xs) = rest_of i xs

abbrev rest : ℕ → Rlp → Rlps
rest i (list xs) = rest_of i xs
rest i (bytes b) = nil
rest i (int n) = nil

-- The decoded fields determine the commitment.
fields-SameCommitment :
    (tx tx' : TempoTransaction)
    → IsSignable tx
    → IsSignable tx'
    → wire (sender_fields tx) ≡ wire (sender_fields tx')
    → SameCommitment tx tx'
unfolding wire wires encode_access_list
fields-SameCommitment tx tx' h h' e =
    let n = h.numeric in
    let n' = h'.numeric in
    record {
      chain_id = number_field _ _ n.chain_id n'.chain_id (ap (nth 0) e);
      priority_fee = number_field _ _ n.priority_fee n'.priority_fee (ap (nth 1) e);
      max_fee = number_field _ _ n.max_fee n'.max_fee (ap (nth 2) e);
      gas = number_field _ _ n.gas n'.gas (ap (nth 3) e);
      calls = calls-injective tx.calls tx'.calls n.calls n'.calls (ap (λ x. rest 0 (nth 4 x)) e);
      access_list =
          entries-injective tx.access_list tx'.access_list h.entries h'.entries
            (ap (λ x. rest 0 (nth 5 x)) e);
      nonce_key = number_field _ _ n.nonce_key n'.nonce_key (ap (nth 6) e);
      nonce = number_field _ _ n.nonce n'.nonce (ap (nth 7) e);
      valid_before = number_field _ _ n.valid_before n'.valid_before (ap (nth 8) e);
      valid_after = number_field _ _ n.valid_after n'.valid_after (ap (nth 9) e);
      token = bytes-injective (ap (nth 10) e);
      fee_payer = ap (nth 11) e;
      authorization =
          authorization-injective tx.key_authorization tx'.key_authorization (ap (rest 13) e);
    }

-- Two transactions that can be signed and that are serialized for the sender to the same text
-- agree in every committed field, given that `rlp.decode` reads back what `rlp.encode` writes and
-- `to_bytes` what `bytes.hex` writes.
pub serialize_for_signing-injective :
    (ext : External) (tx tx' : TempoTransaction)
    → IsHexReader ext
    → IsRlp ext
    → IsSignable tx
    → IsSignable tx'
    → serialize_for_signing ext tx ≡ serialize_for_signing ext tx'
    → SameCommitment tx tx'
serialize_for_signing-injective ext tx tx' hexes codec h h' same =
    let (e, s, all, dec) = serialize_for_signing_lem ext hexes codec tx h in
    let (e', s', all', dec') = serialize_for_signing_lem ext hexes codec tx' h' in
    let texts = ok-injective (sym s ∙ same ∙ s') in
    let both : sender_prefix ∷ e ≡ sender_prefix ∷ e' =
      prefixed-injective ext hexes (sender_prefix ∷ e) (sender_prefix ∷ e') all all' texts in
    let encodings : e ≡ e' = cc (both) in
    fields-SameCommitment tx tx' h h'
      (some-injective _ _ (sym dec ∙ ap codec.rlp_decode encodings ∙ dec'))

-- The character behind the first three.
abbrev fourth : Str → ℕ
fourth (a ∷ b ∷ c ∷ d ∷ s) = d
fourth s = 0

-- No text is serialized both for a sender and for a fee payer, whatever the transactions: the
-- prefixes keep the two kinds of signature apart.
pub payloads_apart :
    (ext : External) (tx tx' : TempoTransaction) (sender : BytesLike) (s : Str)
    → serialize_for_signing ext tx ≡ ok s
    → ¬ (serialize_for_fee_payer_signing ext tx' sender ≡ ok s)
unfolding serialize_for_signing serialize_for_fee_payer_signing prefixed
payloads_apart ext tx tx' sender s h h' =
    let (f, _, k) = >>=-eq-ok (build_rlp_fields tx (skips_fee_token tx) true) _ h in
    let (e, _, a) = >>=-eq-ok (ext.rlp_encode (seq f)) _ k in
    let (f', _, k') = >>=-eq-ok (build_rlp_fields tx' false true) _ h' in
    let (b, _, m) = >>=-eq-ok (as_address ext sender) _ k' in
    let (e', _, a') = >>=-eq-ok (ext.rlp_encode (seq (set f' 11 (bytes b)))) _ m in
    absurd (omega (arith, ap fourth (ok-injective (a ∙ sym a'))))
