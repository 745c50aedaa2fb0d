-- ===== src/Builder/Laws.antt =====
-- What a chain of builder calls leads to.
use tempo_py.Prelude.{
  ◌≡◌, refl, sym, ◌∙◌, ap, List, [], ◌∷◌, ◌++◌, Option, none, some, Result, ok, ◌>>=◌, >>=-eq-ok,
  ok-injective, subst, append_assoc, append-nil, false,
}
use tempo_py.External.{External}
use tempo_py.Types.{Address, BytesLike, as_optional_address}
use tempo_py.Types.Laws.{as_optional_address-length, as_optional_address_lem}
use tempo_py.Models.Call.{Call, create_call, create_access_list_item}
use tempo_py.Models.TempoTransaction.{
  TempoTransaction, init, create, created, has_sender_signature, has_fee_payer_signature,
}
use tempo_py.Models.TempoTransaction.Laws.{Is20, IsValid}
use tempo_py.Builder.{Builder, Setter, apply, chain, build, initial, arguments}
use tempo_py.Builder as Fluent

-- The transaction that `build` makes of a state.
abbrev pub transaction : Builder → TempoTransaction
transaction b = record (created (arguments b) []) { fee_token = b.fee_token }

converted-Is20 :
    (ext : External) (value : Option BytesLike) (o : Option Address)
    → as_optional_address ext value ≡ ok o
    → Is20 o
converted-Is20 ext value none h = tt
converted-Is20 ext value (some a) h = as_optional_address-length ext value a h

-- The calls that one setter adds, and those of a chain in order.
unfoldable calls_of : External → Setter → Result (List Call)
calls_of ext (Fluent.add_call to value call_data) = do
  c ← create_call ext to value call_data
  ok (c ∷ [])
calls_of ext _ = ok []

unfoldable pub calls_added : External → List Setter → Result (List Call)
unfolding calls_of
calls_added ext [] = ok []
calls_added ext (s ∷ rest) = do cs ← calls_of ext s; ds ← calls_added ext rest; ok (cs ++ ds)

-- What one setter keeps: a token that is set has 20 bytes, and calls are only added at the end.
record Step (ext : External) (s : Setter) (b b' : Builder) : Type 0 where
  token : Is20 b.fee_token → Is20 b'.fee_token
  added : List Call
  calls_of-eq-ok : calls_of ext s ≡ ok added
  calls : b'.calls ≡ b.calls ++ added

-- A setter that changes neither the token nor the calls.
unchanged :
    (ext : External) (s : Setter) (b next b' : Builder)
    → calls_of ext s ≡ ok []
    → next.fee_token ≡ b.fee_token
    → next.calls ≡ b.calls
    → ok next ≡ ok b'
    → Step ext s b b'
unchanged ext s b next b' c t k e =
    subst (λ b''. Step ext s b b'') (ok-injective e)
      (record {
        token = λ h. subst Is20 (sym t) h;
        added = [];
        calls_of-eq-ok = c;
        calls = k ∙ sym (append-nil b.calls);
      })

apply-Step :
    (ext : External) (s : Setter) (b b' : Builder) → apply ext s b ≡ ok b' → Step ext s b b'
unfolding apply calls_of
apply-Step ext (Fluent.chain_id x) b b' e = unchanged ext _ b _ b' refl refl refl e
apply-Step ext (Fluent.max_priority_fee_per_gas x) b b' e = unchanged ext _ b _ b' refl refl refl e
apply-Step ext (Fluent.max_fee_per_gas x) b b' e = unchanged ext _ b _ b' refl refl refl e
apply-Step ext (Fluent.gas_limit x) b b' e = unchanged ext _ b _ b' refl refl refl e
apply-Step ext (Fluent.nonce x) b b' e = unchanged ext _ b _ b' refl refl refl e
apply-Step ext (Fluent.nonce_key x) b b' e = unchanged ext _ b _ b' refl refl refl e
apply-Step ext (Fluent.valid_before x) b b' e = unchanged ext _ b _ b' refl refl refl e
apply-Step ext (Fluent.valid_after x) b b' e = unchanged ext _ b _ b' refl refl refl e
apply-Step ext (Fluent.awaiting_fee_payer x) b b' e = unchanged ext _ b _ b' refl refl refl e
apply-Step ext (Fluent.fee_token token) b b' e =
    let (t, converted, e') = >>=-eq-ok (as_optional_address ext token) _ e in
    subst (λ b''. Step ext (Fluent.fee_token token) b b'') (ok-injective e')
      (record {
        token = λ h. converted-Is20 ext token t converted;
        added = [];
        calls_of-eq-ok = refl;
        calls = sym (append-nil b.calls);
      })
apply-Step ext (Fluent.add_call to value call_data) b b' e =
    let (c, made, e') = >>=-eq-ok (create_call ext to value call_data) _ e in
    subst (λ b''. Step ext (Fluent.add_call to value call_data) b b'') (ok-injective e')
      (record { token = λ h. h; added = c ∷ []; calls_of-eq-ok = rw made; calls = refl })
apply-Step ext (Fluent.add_access_list_entry address keys) b b' e =
    let (i, made, e') = >>=-eq-ok (create_access_list_item ext address keys) _ e in
    unchanged ext _ b _ b' refl refl refl e'

chain_lem :
    (ext : External) (setters : List Setter) (b b' : Builder)
    → chain ext setters b ≡ ok b'
    → (Is20 b.fee_token → Is20 b'.fee_token)
      × (cs : List Call) × (calls_added ext setters ≡ ok cs)
      × (b'.calls ≡ b.calls ++ cs)
unfolding chain calls_added
chain_lem ext [] b b' e =
    let same = ok-injective e in
    (
      (λ h. subst (λ (x : Builder). Is20 x.fee_token) same h),
      [],
      refl,
      ap (λ (x : Builder). x.calls) (sym same) ∙ sym (append-nil b.calls),
    )
chain_lem ext (s ∷ rest) b b' e =
    let (b1, first, e') = >>=-eq-ok (apply ext s b) _ e in
    let one = apply-Step ext s b b1 first in
    let (token, ds, made, more) = chain_lem ext rest b1 b' e' in
    (
      (λ h. token (one.token h)),
      one.added ++ ds,
      rw (one.calls_of-eq-ok, made),
      more ∙ ap (λ cs. cs ++ ds) one.calls ∙ append_assoc b.calls one.added ds,
    )

build_lem : (ext : External) (b : Builder) → Is20 b.fee_token → build ext b ≡ ok (transaction b)
unfolding build create init as_optional_address
build_lem ext b h = go b.fee_token h
  where
    go :
        (o : Option Address)
        → Is20 o
        → build ext (record b { fee_token = o }) ≡ ok (transaction (record b { fee_token = o }))
    go none h = refl
    go (some a) h = rw (as_optional_address_lem ext a h)

-- Whatever chain of builder calls succeeds from a new builder, `build` raises nothing: it returns
-- a transaction with well-formed addresses, without signatures, whose calls are those that the
-- chain added, in their order.
pub build-chain :
    (ext : External) (setters : List Setter) (b : Builder)
    → chain ext setters initial ≡ ok b
    → (tx : TempoTransaction) × (build ext b ≡ ok tx)
      × IsValid tx
      × (has_sender_signature tx ≡ false)
      × (has_fee_payer_signature tx ≡ false)
      × (calls_added ext setters ≡ ok tx.calls)
unfolding has_sender_signature has_fee_payer_signature
build-chain ext setters b e =
    let (token, cs, made, added) = chain_lem ext setters initial b e in
    (
      transaction b,
      build_lem ext b (token tt),
      record { token = token tt; sender = tt },
      refl,
      refl,
      made ∙ ap ok (sym added),
    )
