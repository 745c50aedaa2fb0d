-- ===== src/Models/TempoTransaction/DictRoundTrip.antt =====
-- `from_dict` reads the dictionary of every unsigned transaction.
use tempo_py.Prelude.{
  ◌≡◌, refl, sym, false, List, [], ◌∷◌, map, none, some, Result, ok, traverse, All, length, inr,
}
use tempo_py.Prelude.Int.{pos, ltb_ℤ}
use tempo_py.Python.Bytes.{Bytes}
use tempo_py.External.{External}
use tempo_py.Types.{buffer, as_bytes, as_hash32, as_optional_address, check_hash32}
use tempo_py.Types.Laws.{IsAddress, as_address_lem}
use tempo_py.Models.Call.{
  Call, AccessListItem, create_call, create_access_list_item, new_access_list_item,
  validate_storage_keys,
}
use tempo_py.Models.TempoTransaction.{TempoTransaction, item, init}
use tempo_py.Models.TempoTransaction.Laws.{IsValid, reconverted}
use tempo_py.Models.TempoTransaction.FromDict.{
  TxDict, CallDict, AccessDict, items, get, calls_data, or_legacy, from_dict, call_from_dict,
  item_from_dict,
}
use mathlib.Core.Option

abbrev pub dict_of_call : Call → CallDict
dict_of_call c = record {
  to = some (some (buffer c.to));
  value = some c.value;
  call_data = some (buffer c.call_data);
  input = none;
}

abbrev pub dict_of_item : AccessListItem → AccessDict
dict_of_item i = record {
  address = some (buffer i.address);
  storage_keys = some (map buffer i.storage_keys);
  storage_keys_snake = none;
}

-- The dictionary of a transaction with the access list `entries`, with camelCase keys.
abbrev pub dict_of : TempoTransaction → List AccessListItem → TxDict
dict_of tx entries = record {
  chain_id = some tx.chain_id;
  chain_id_snake = none;
  max_priority_fee_per_gas = some tx.max_priority_fee_per_gas;
  max_priority_fee_per_gas_snake = none;
  max_fee_per_gas = some tx.max_fee_per_gas;
  max_fee_per_gas_snake = none;
  gas = some tx.gas_limit;
  gas_limit = none;
  gas_limit_snake = none;
  calls = some (items (map dict_of_call tx.calls));
  to = none;
  value = none;
  call_data = none;
  access_list = some (items (map dict_of_item entries));
  access_list_snake = none;
  nonce_key = some (some tx.nonce_key);
  nonce_key_snake = none;
  nonce = some (some tx.nonce);
  valid_before = some tx.valid_before;
  valid_before_snake = none;
  valid_after = some tx.valid_after;
  valid_after_snake = none;
  fee_token = some (Option.map buffer tx.fee_token);
  fee_token_snake = none;
  awaiting_fee_payer = some tx.awaiting_fee_payer;
  awaiting_fee_payer_snake = none;
  tempo_authorization_list = some tx.tempo_authorization_list;
  tempo_authorization_list_snake = none;
  key_authorization = some tx.key_authorization;
  key_authorization_snake = none;
}

-- What `Call` and `AccessListItem` promise of their fields.
abbrev pub IsCall : Call → Type 0
IsCall c = IsAddress c.to × (ltb_ℤ c.value (pos 0) ≡ false)

abbrev pub IsItem : AccessListItem → Type 0
IsItem i = (length i.address ≡ 20) × All (λ (k : Bytes). length k ≡ 32) i.storage_keys

-- No signature, and no sender.
pub record IsUnsigned (tx : TempoTransaction) : Type 0 where
  pub sender_signature : tx.sender_signature ≡ none
  pub fee_payer_signature : tx.fee_payer_signature ≡ none
  pub sender_address : tx.sender_address ≡ none

call_from_dict_lem :
    (ext : External) (c : Call) → IsCall c → call_from_dict ext (dict_of_call c) ≡ ok c
unfolding call_from_dict create_call get as_bytes
call_from_dict_lem ext c h = rw (as_address_lem ext c.to h.0, h.1) refl

traverse-as_hash32 :
    (ext : External) (ks : List Bytes)
    → All (λ (k : Bytes). length k ≡ 32) ks
    → traverse (as_hash32 ext) (map buffer ks) ≡ ok ks
unfolding as_hash32 check_hash32
traverse-as_hash32 ext [] h = refl
traverse-as_hash32 ext (k ∷ ks) h = rw (h.0, traverse-as_hash32 ext ks h.1) refl

validate_storage_keys_lem :
    (ks : List Bytes) → All (λ (k : Bytes). length k ≡ 32) ks → validate_storage_keys ks ≡ ok tt
unfolding validate_storage_keys
validate_storage_keys_lem [] h = refl
validate_storage_keys_lem (k ∷ ks) h = rw (h.0, validate_storage_keys_lem ks h.1) refl

item_from_dict_lem :
    (ext : External) (i : AccessListItem) → IsItem i → item_from_dict ext (dict_of_item i) ≡ ok i
unfolding item_from_dict create_access_list_item new_access_list_item get
item_from_dict_lem ext i h =
    rw
      (
        traverse-as_hash32 ext i.storage_keys h.1,
        as_address_lem ext i.address (inr h.0),
        h.0,
        validate_storage_keys_lem i.storage_keys h.1,
      )
      refl

traverse-map {ℓ} :
    {A : Type 0} {B : Type ℓ} {P : A → Type 0} (write : A → B) (read : B → Result A)
    → ((x : A) → P x → read (write x) ≡ ok x)
    → (xs : List A) → All P xs
    → traverse read (map write xs) ≡ ok xs
traverse-map write read h [] k = refl
traverse-map write read h (x ∷ xs) k = rw (h x k.0, traverse-map write read h xs k.1) refl

calls_data-dict_of :
    (tx : TempoTransaction) (entries : List AccessListItem)
    → calls_data (dict_of tx entries) ≡ items (map dict_of_call tx.calls)
unfolding calls_data or_legacy get
calls_data-dict_of tx entries = go tx.calls
  where
    go :
        (cs : List Call)
        → calls_data (dict_of (record tx { calls = cs }) entries) ≡ items (map dict_of_call cs)
    go [] = refl
    go (c ∷ cs) = refl

-- The dictionary of an unsigned transaction whose parts are well formed is read as that transaction.
pub from_dict-dict_of :
    (ext : External) (tx : TempoTransaction) (entries : List AccessListItem)
    → IsUnsigned tx
    → tx.access_list ≡ map item entries
    → IsValid tx
    → All IsCall tx.calls
    → All IsItem entries
    → from_dict ext (dict_of tx entries) ≡ ok tx
unfolding from_dict get init as_optional_address
from_dict-dict_of ext tx entries un same valid hc hi =
    rw
      (
        calls_data-dict_of tx entries,
        traverse-map dict_of_call (call_from_dict ext) (call_from_dict_lem ext) tx.calls hc,
        traverse-map dict_of_item (item_from_dict ext) (item_from_dict_lem ext) entries hi,
        reconverted ext tx.fee_token valid.token,
      )
      (λ i. ok (record tx {
        access_list = sym same i;
        sender_signature = sym un.sender_signature i;
        fee_payer_signature = sym un.fee_payer_signature i;
        sender_address = sym un.sender_address i;
      }))
