-- ===== src/Models/TempoTransaction/FromDict.antt =====
-- `TempoTransaction.from_dict` of tempo/models.py.
-- A dictionary is a record with a field for each key that is read, `none` where the key is missing;
-- a field with `_snake` at its end is the snake_case key. A key holds a value of the type that the
-- attribute has, or None where that is tested.
use tempo_py.Prelude.{
  ◌==◌, ◌||◌, Bool, true, false, not, if◌then◌else◌, List, [], ◌∷◌, map, Option, none, some, Result,
  ok, err, type_error, ◌>>=◌, traverse,
}
use tempo_py.Prelude.Int.{ℤ, pos, negsuc}
use tempo_py.Python.Bytes.{Bytes, codes}
use tempo_py.External.{External, Rlp}
use tempo_py.Types.{BytesLike, str, buffer, other}
use tempo_py.Models.Call.{Call, AccessListItem, create_call, create_access_list_item}
use tempo_py.Models.TempoTransaction.{
  TempoTransaction, item, CreateArgs, default_chain_id, created, init,
}

-- `_get(*keys, default=…)`, of the values of the keys
unfoldable pub get {ℓ} : {A : Type ℓ} → List (Option A) → A → A
get [] default = default
get (none ∷ keys) default = get keys default
get (some value ∷ keys) default = value

-- A dictionary of `calls`. None is a value of `to`.
pub record CallDict : Type 0 where
  pub to : Option (Option BytesLike)
  pub value : Option ℤ
  pub call_data : Option BytesLike
  pub input : Option BytesLike

pub record AccessDict : Type 0 where
  pub address : Option BytesLike
  pub storage_keys : Option (List BytesLike)
  pub storage_keys_snake : Option (List BytesLike)

-- What `calls` or `accessList` holds: None or another object that is false and that `list` does not
-- take; a list or a tuple, or an empty iterable, which counts as an empty list; another iterable; or
-- an object that is true and that `list` does not take.
pub data DictEntries (A : Type 0) : Type 0 where
  blank : DictEntries A
  items : List A → DictEntries A
  iterable : DictEntries A
  atom : DictEntries A

pub record TxDict : Type 0 where
  pub chain_id : Option ℤ
  pub chain_id_snake : Option ℤ
  pub max_priority_fee_per_gas : Option ℤ
  pub max_priority_fee_per_gas_snake : Option ℤ
  pub max_fee_per_gas : Option ℤ
  pub max_fee_per_gas_snake : Option ℤ
  pub gas : Option ℤ
  pub gas_limit : Option ℤ
  pub gas_limit_snake : Option ℤ
  pub calls : Option (DictEntries CallDict)
  pub to : Option (Option BytesLike)
  pub value : Option ℤ
  pub call_data : Option BytesLike
  pub access_list : Option (DictEntries AccessDict)
  pub access_list_snake : Option (DictEntries AccessDict)
  pub nonce_key : Option (Option ℤ)
  pub nonce_key_snake : Option (Option ℤ)
  pub nonce : Option (Option ℤ)
  pub valid_before : Option (Option ℤ)
  pub valid_before_snake : Option (Option ℤ)
  pub valid_after : Option (Option ℤ)
  pub valid_after_snake : Option (Option ℤ)
  pub fee_token : Option (Option BytesLike)
  pub fee_token_snake : Option (Option BytesLike)
  pub awaiting_fee_payer : Option Bool
  pub awaiting_fee_payer_snake : Option Bool
  pub tempo_authorization_list : Option (List Bytes)
  pub tempo_authorization_list_snake : Option (List Bytes)
  pub key_authorization : Option (Option Rlp)
  pub key_authorization_snake : Option (Option Rlp)

-- The truth of a value of `to`. An `other` object is one that is true.
abbrev pub is_true : Option BytesLike → Bool
is_true none = false
is_true (some (str [])) = false
is_true (some (str (c ∷ cs))) = true
is_true (some (buffer [])) = false
is_true (some (buffer (b ∷ bs))) = true
is_true (some other) = true

abbrev pub is_true_int : ℤ → Bool
is_true_int (pos n) = not (n == 0)
is_true_int (negsuc n) = true

abbrev pub empty_text : BytesLike
empty_text = str (codes "")

abbrev pub blank_data : BytesLike
blank_data = str (codes "0x")

-- The call of the legacy format in place of what `calls` holds, if there is one.
unfoldable pub or_legacy : TxDict → DictEntries CallDict → DictEntries CallDict
or_legacy d held =
    let to_addr = get (d.to ∷ []) (some empty_text) in
    let value = get (d.value ∷ []) (pos 0) in
    let call_data = get (d.call_data ∷ []) blank_data in
    if is_true to_addr || is_true_int value
    then items (
        record { to = some to_addr; value = some value; call_data = some call_data; input = none }
        ∷ [])
    else held

-- `calls_data`, at the end of `if not calls_data`
unfoldable pub calls_data : TxDict → DictEntries CallDict
unfolding or_legacy
calls_data d = elim (get (d.calls ∷ []) (items [])) [
  | blank ↦ or_legacy d blank
  | items [] ↦ or_legacy d (items [])
  | items (c ∷ cs) ↦ items (c ∷ cs)
  | iterable ↦ iterable
  | atom ↦ atom
]

-- An argument that may be None, which no conversion takes.
abbrev pub argument : Option BytesLike → BytesLike
argument none = other
argument (some value) = value

unfoldable pub call_from_dict : External → CallDict → Result Call
call_from_dict ext call =
    create_call ext (argument (get (call.to ∷ []) (some empty_text)))
      (get (call.value ∷ []) (pos 0)) (get (call.call_data ∷ call.input ∷ []) blank_data)

unfoldable pub item_from_dict : External → AccessDict → Result AccessListItem
item_from_dict ext entry =
    create_access_list_item ext (get (entry.address ∷ []) empty_text)
      (get (entry.storage_keys ∷ entry.storage_keys_snake ∷ []) [])

-- `tuple(… for x in list(entries) if isinstance(entries, (list, tuple)))`
abbrev pub each {ℓ} : {A : Type 0} {B : Type ℓ} → (A → Result B) → DictEntries A → Result (List B)
each f blank = err type_error
each f (items xs) = traverse f xs
each f iterable = ok []
each f atom = err type_error

abbrev pub or_0 : Option ℤ → ℤ
or_0 none = pos 0
or_0 (some n) = n

-- The arguments that `cls` is called with, from the calls and the access list; the authorization
-- list is passed beside them, without a conversion.
abbrev pub dict_args : TxDict → List Call → List AccessListItem → CreateArgs
dict_args d calls access_list = record {
  chain_id = get (d.chain_id ∷ d.chain_id_snake ∷ []) (pos default_chain_id);
  gas_limit = get (d.gas ∷ d.gas_limit ∷ d.gas_limit_snake ∷ []) (pos 21000);
  max_fee_per_gas = get (d.max_fee_per_gas ∷ d.max_fee_per_gas_snake ∷ []) (pos 0);
  max_priority_fee_per_gas =
      get (d.max_priority_fee_per_gas ∷ d.max_priority_fee_per_gas_snake ∷ []) (pos 0);
  nonce = or_0 (get (d.nonce ∷ []) (some (pos 0)));
  nonce_key = or_0 (get (d.nonce_key ∷ d.nonce_key_snake ∷ []) (some (pos 0)));
  valid_before = get (d.valid_before ∷ d.valid_before_snake ∷ []) none;
  valid_after = get (d.valid_after ∷ d.valid_after_snake ∷ []) none;
  fee_token = get (d.fee_token ∷ d.fee_token_snake ∷ []) none;
  awaiting_fee_payer = get (d.awaiting_fee_payer ∷ d.awaiting_fee_payer_snake ∷ []) false;
  calls = calls;
  access_list = map item access_list;
  tempo_authorization_list = [];
  key_authorization = get (d.key_authorization ∷ d.key_authorization_snake ∷ []) none;
}

-- `TempoTransaction.from_dict`
unfoldable pub from_dict : External → TxDict → Result TempoTransaction
unfolding calls_data call_from_dict item_from_dict
from_dict ext d = do
  calls ← each (call_from_dict ext) (calls_data d)
  access_list ←
      each (item_from_dict ext) (get (d.access_list ∷ d.access_list_snake ∷ []) (items []))
  let args = dict_args d calls access_list
  let auth_list = get (d.tempo_authorization_list ∷ d.tempo_authorization_list_snake ∷ []) []
  init ext (created args auth_list) args.fee_token none
