-- ===== src/Models/TempoTransaction/Dictionary.antt =====
-- What `from_dict` reads: the keys that stand for one another, and the dictionary of a transaction.
use tempo_py.Prelude.{
  ◌≡◌, refl, sym, ◌∙◌, zero, suc, ◌||◌, if◌then◌else◌, arith, false, [], ◌∷◌, Option, none, some,
}
use tempo_py.Prelude.Int.{ℤ, pos, negsuc}
use tempo_py.Python.Bytes.{codes}
use tempo_py.Types.{BytesLike, str, buffer, other}
use tempo_py.External.{External}
use tempo_py.Models.TempoTransaction.{default_chain_id}
use tempo_py.Models.TempoTransaction.FromDict.{
  TxDict, CallDict, DictEntries, blank, items, iterable, atom, get, calls_data, or_legacy, is_true,
  is_true_int, from_dict,
}

-- The value of the first of two keys that is there.
abbrev first_of {ℓ} : {A : Type ℓ} → Option A → Option A → Option A
first_of none second = second
first_of (some value) second = some value

get_first :
    {A : Type 0} (first second : Option A) (default : A)
    → get (none ∷ first_of first second ∷ []) default ≡ get (first ∷ second ∷ []) default
unfolding get
get_first none second default = refl
get_first (some value) second default = refl

get_third :
    {A : Type 0} (first second third : Option A) (default : A)
    → get (none ∷ none ∷ first_of first (first_of second third) ∷ []) default
      ≡ get (first ∷ second ∷ third ∷ []) default
unfolding get
get_third none none third default = refl
get_third none (some value) third default = refl
get_third (some value) second third default = refl

-- The recipient of the legacy keys: a missing one, None, and an empty text or bytes count as none.
abbrev recipient : Option (Option BytesLike) → Option BytesLike
recipient none = none
recipient (some none) = none
recipient (some (some (str []))) = none
recipient (some (some (str (c ∷ cs)))) = some (str (c ∷ cs))
recipient (some (some (buffer []))) = none
recipient (some (some (buffer (b ∷ bs)))) = some (buffer (b ∷ bs))
recipient (some (some other)) = some other

-- The value of the legacy keys: a missing one and 0 count as none.
abbrev amount : Option ℤ → Option ℤ
amount none = none
amount (some (pos zero)) = none
amount (some (pos (suc n))) = some (pos (suc n))
amount (some (negsuc n)) = some (negsuc n)

abbrev value_or {ℓ} : {A : Type ℓ} → A → Option A → A
value_or default none = default
value_or default (some value) = value

-- The call that the legacy keys describe.
abbrev legacy_call : TxDict → CallDict
legacy_call d = record {
  to = some (value_or (some (str (codes ""))) d.to);
  value = some (value_or (pos 0) d.value);
  call_data = some (value_or (str (codes "0x")) d.call_data);
  input = none;
}

-- The legacy call where a recipient or a value is given, and `held` where neither is.
abbrev one_call :
    Option BytesLike → Option ℤ → CallDict → DictEntries CallDict → DictEntries CallDict
one_call none none call held = held
one_call (some to) value call held = items (call ∷ [])
one_call none (some value) call held = items (call ∷ [])

-- The calls of a dictionary: those of `calls`, where it holds any.
abbrev calls_of : TxDict → Option (DictEntries CallDict) → DictEntries CallDict
calls_of d none = one_call (recipient d.to) (amount d.value) (legacy_call d) (items [])
calls_of d (some blank) = one_call (recipient d.to) (amount d.value) (legacy_call d) blank
calls_of d (some (items [])) = one_call (recipient d.to) (amount d.value) (legacy_call d) (items [])
calls_of d (some (items (c ∷ cs))) = items (c ∷ cs)
calls_of d (some iterable) = iterable
calls_of d (some atom) = atom

get_one : {A : Type 0} (o : Option A) (default : A) → get (o ∷ []) default ≡ value_or default o
unfolding get
get_one none default = refl
get_one (some value) default = refl

either_given :
    (to : Option (Option BytesLike)) (value : Option ℤ) (call : CallDict)
    (held : DictEntries CallDict)
    → (if is_true (value_or (some (str (codes ""))) to) || is_true_int (value_or (pos 0) value)
        then items (call ∷ [])
        else held)
      ≡ one_call (recipient to) (amount value) call held
either_given none none call held = refl
either_given none (some (pos zero)) call held = refl
either_given none (some (pos (suc n))) call held = ground arith
either_given none (some (negsuc n)) call held = refl
either_given (some none) none call held = refl
either_given (some none) (some (pos zero)) call held = refl
either_given (some none) (some (pos (suc n))) call held = ground arith
either_given (some none) (some (negsuc n)) call held = refl
either_given (some (some (str []))) none call held = refl
either_given (some (some (str []))) (some (pos zero)) call held = refl
either_given (some (some (str []))) (some (pos (suc n))) call held = ground arith
either_given (some (some (str []))) (some (negsuc n)) call held = refl
either_given (some (some (str (c ∷ cs)))) value call held = refl
either_given (some (some (buffer []))) none call held = refl
either_given (some (some (buffer []))) (some (pos zero)) call held = refl
either_given (some (some (buffer []))) (some (pos (suc n))) call held = ground arith
either_given (some (some (buffer []))) (some (negsuc n)) call held = refl
either_given (some (some (buffer (b ∷ bs)))) value call held = refl
either_given (some (some other)) value call held = refl

or_legacy-one_call :
    (d : TxDict) (held : DictEntries CallDict)
    → or_legacy d held ≡ one_call (recipient d.to) (amount d.value) (legacy_call d) held
unfolding or_legacy
or_legacy-one_call d held =
    rw
      (
        get_one d.to (some (str (codes ""))),
        get_one d.value (pos 0),
        get_one d.call_data (str (codes "0x")),
      )
      (either_given d.to d.value (legacy_call d) held)

calls_data-calls_of : (d : TxDict) → calls_data d ≡ calls_of d d.calls
calls_data-calls_of d = go d.calls refl
  where
    go : (o : Option (DictEntries CallDict)) → d.calls ≡ o → calls_data d ≡ calls_of d o
    go none e = unfold calls_data get in rw e (or_legacy-one_call d (items []))
    go (some blank) e = unfold calls_data get in rw e (or_legacy-one_call d blank)
    go (some (items [])) e = unfold calls_data get in rw e (or_legacy-one_call d (items []))
    go (some (items (c ∷ cs))) e = unfold calls_data get in rw e refl
    go (some iterable) e = unfold calls_data get in rw e refl
    go (some atom) e = unfold calls_data get in rw e refl

-- The same data with snake_case keys, and with the batched `calls` in place of the legacy keys.
abbrev pub normalize : TxDict → TxDict
normalize d = record {
  chain_id = none;
  chain_id_snake = first_of d.chain_id d.chain_id_snake;
  max_priority_fee_per_gas = none;
  max_priority_fee_per_gas_snake =
      first_of d.max_priority_fee_per_gas d.max_priority_fee_per_gas_snake;
  max_fee_per_gas = none;
  max_fee_per_gas_snake = first_of d.max_fee_per_gas d.max_fee_per_gas_snake;
  gas = none;
  gas_limit = none;
  gas_limit_snake = first_of d.gas (first_of d.gas_limit d.gas_limit_snake);
  calls = some (calls_of d d.calls);
  to = none;
  value = none;
  call_data = none;
  access_list = none;
  access_list_snake = first_of d.access_list d.access_list_snake;
  nonce_key = none;
  nonce_key_snake = first_of d.nonce_key d.nonce_key_snake;
  nonce = d.nonce;
  valid_before = none;
  valid_before_snake = first_of d.valid_before d.valid_before_snake;
  valid_after = none;
  valid_after_snake = first_of d.valid_after d.valid_after_snake;
  fee_token = none;
  fee_token_snake = first_of d.fee_token d.fee_token_snake;
  awaiting_fee_payer = none;
  awaiting_fee_payer_snake = first_of d.awaiting_fee_payer d.awaiting_fee_payer_snake;
  tempo_authorization_list = none;
  tempo_authorization_list_snake =
      first_of d.tempo_authorization_list d.tempo_authorization_list_snake;
  key_authorization = none;
  key_authorization_snake = first_of d.key_authorization d.key_authorization_snake;
}

-- A dictionary without legacy keys keeps its `calls`.
calls_data_settled :
    (n : TxDict) (e : DictEntries CallDict)
    → n.calls ≡ some e
    → ((held : DictEntries CallDict) → or_legacy n held ≡ held)
    → calls_data n ≡ e
unfolding calls_data get
calls_data_settled n blank h k = rw h (k blank)
calls_data_settled n (items []) h k = rw h (k (items []))
calls_data_settled n (items (c ∷ cs)) h k = rw h refl
calls_data_settled n iterable h k = rw h refl
calls_data_settled n atom h k = rw h refl

calls_data-normalize : (d : TxDict) → calls_data (normalize d) ≡ calls_data d
unfolding or_legacy get
calls_data-normalize d =
    calls_data_settled (normalize d) (calls_of d d.calls) refl (λ held. refl)
    ∙ sym (calls_data-calls_of d)

-- A dictionary reads the same when its values stand at the snake_case keys alone, each the value of
-- the first of the keys that stand for one another, and its calls at `calls` alone: those of `calls`,
-- or the call of the legacy keys where `calls` is missing or false and a recipient or a value is
-- given (not None, not empty, not 0). An exception is the same one too.
pub from_dict-normalize :
    (ext : External) (d : TxDict) → from_dict ext (normalize d) ≡ from_dict ext d
unfolding from_dict
from_dict-normalize ext d =
    rw
      (
        calls_data-normalize d,
        get_first d.access_list d.access_list_snake (items []),
        get_first d.chain_id d.chain_id_snake (pos default_chain_id),
        get_first d.max_priority_fee_per_gas d.max_priority_fee_per_gas_snake (pos 0),
        get_first d.max_fee_per_gas d.max_fee_per_gas_snake (pos 0),
        get_third d.gas d.gas_limit d.gas_limit_snake (pos 21000),
        get_first d.nonce_key d.nonce_key_snake (some (pos 0)),
        get_first d.valid_before d.valid_before_snake none,
        get_first d.valid_after d.valid_after_snake none,
        get_first d.fee_token d.fee_token_snake none,
        get_first d.awaiting_fee_payer d.awaiting_fee_payer_snake false,
        get_first d.tempo_authorization_list d.tempo_authorization_list_snake [],
        get_first d.key_authorization d.key_authorization_snake none,
      )
      refl
