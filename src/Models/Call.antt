-- ===== src/Models/Call.antt =====
-- `Call` and `AccessListItem` of tempo/models.py.
use tempo_py.Prelude.{
  ◌==◌, not, List, [], ◌∷◌, map, Result, ok, value_error, ◌>>=◌, ◌>>◌, require, traverse, length,
}
use tempo_py.Prelude.Int.{ℤ, pos, ltb_ℤ}
use tempo_py.Python.Bytes.{Bytes}
use tempo_py.External.{External, Rlp, bytes, int, seq}
use tempo_py.Types.{Address, BytesLike, as_address, as_bytes, as_hash32}

pub record Call : Type 0 where
  pub to : Address
  pub value : ℤ
  pub call_data : Bytes

-- `Call.create`: the converters of `to` and `data`, then `__attrs_post_init__`.
unfoldable pub create_call : External → BytesLike → ℤ → BytesLike → Result Call
create_call ext to value call_data = do
  to' ← as_address ext to
  call_data' ← as_bytes ext call_data
  require (not (ltb_ℤ value (pos 0))) value_error
  ok (record { to = to'; value = value; call_data = call_data' })

-- `Call.as_rlp_list`
unfoldable pub call_as_rlp_list : Call → Rlp
call_as_rlp_list c = seq (bytes c.to ∷ int c.value ∷ bytes c.call_data ∷ [])

pub record AccessListItem : Type 0 where
  pub address : Address
  pub storage_keys : List Bytes

-- `AccessListItem._validate_storage_keys`
unfoldable pub validate_storage_keys : List Bytes → Result (Unit {0})
validate_storage_keys [] = ok tt
validate_storage_keys (k ∷ ks) = require (length k == 32) value_error >> validate_storage_keys ks

-- `AccessListItem(address=…, storage_keys=…)`: the converter, then `__attrs_post_init__`.
unfoldable pub new_access_list_item : External → BytesLike → List Bytes → Result AccessListItem
unfolding validate_storage_keys
new_access_list_item ext address keys = do
  address' ← as_address ext address
  require (length address' == 20) value_error
  validate_storage_keys keys
  ok (record { address = address'; storage_keys = keys })

-- `AccessListItem.create`
unfoldable pub create_access_list_item :
    External → BytesLike → List BytesLike → Result AccessListItem
create_access_list_item ext address storage_keys = do
  keys ← traverse (as_hash32 ext) storage_keys
  new_access_list_item ext address keys

-- `AccessListItem.as_rlp_list`
unfoldable pub item_as_rlp_list : AccessListItem → Rlp
item_as_rlp_list i = seq (bytes i.address ∷ seq (map bytes i.storage_keys) ∷ [])
