-- ===== src/Models/TempoTransaction.antt =====
-- `TempoTransaction` of tempo/models.py, and the constants that its defaults come from.
pub mod Laws
pub mod FromDict
pub mod Dictionary
pub mod DictRoundTrip
use tempo_py.Prelude.{
  ℕ, Bool, true, false, List, [], ◌∷◌, Option, none, some, Result, ok, err, ◌>>=◌, traverse,
}
use tempo_py.Prelude.Int.{ℤ, pos}
use tempo_py.Python.Bytes.{Bytes}
use tempo_py.External.{External, Rlp}
use tempo_py.Types.{Address, BytesLike, buffer, as_bytes, as_optional_address}
use tempo_py.Models.Call.{Call, AccessListItem}
use tempo_py.Models.Signature.{Signature}
use tempo_py.KeychainSignature.{KeychainSignature}
use mathlib.Core.Option

abbrev pub chain_id_mainnet : ℕ
chain_id_mainnet = 4217

abbrev pub default_chain_id : ℕ
default_chain_id = chain_id_mainnet

-- `Signature | KeychainSignature`
pub data SenderSignature : Type 0 where
  secp256k1 : Signature → SenderSignature
  keychain : KeychainSignature → SenderSignature

-- An element of `access_list`: the encoder tells an AccessListItem from any other object.
pub data AccessEntry : Type 0 where
  item : AccessListItem → AccessEntry
  foreign : AccessEntry

-- `key_authorization` holds any object that RLP can encode.
pub record TempoTransaction : Type 0 where
  pub chain_id : ℤ
  pub max_priority_fee_per_gas : ℤ
  pub max_fee_per_gas : ℤ
  pub gas_limit : ℤ
  pub calls : List Call
  pub access_list : List AccessEntry
  pub nonce_key : ℤ
  pub nonce : ℤ
  pub valid_before : Option ℤ
  pub valid_after : Option ℤ
  pub fee_token : Option Address
  pub sender_signature : Option SenderSignature
  pub fee_payer_signature : Option Signature
  pub awaiting_fee_payer : Bool
  pub sender_address : Option Address
  pub tempo_authorization_list : List Bytes
  pub key_authorization : Option Rlp

-- The generated `__init__`: `tx` with `fee_token` and `sender_address` put through their converters.
unfoldable pub init :
    External → TempoTransaction → Option BytesLike → Option BytesLike → Result TempoTransaction
init ext tx fee_token sender_address = do
  token ← as_optional_address ext fee_token
  sender ← as_optional_address ext sender_address
  ok (record tx { fee_token = token; sender_address = sender })

-- `attrs.evolve`: `tx` already has the changed fields, and `__init__` converts it anew.
unfoldable pub evolve : External → TempoTransaction → Result TempoTransaction
evolve ext tx = init ext tx (Option.map buffer tx.fee_token) (Option.map buffer tx.sender_address)

-- The keyword arguments of `TempoTransaction.create`.
pub record CreateArgs : Type 0 where
  pub chain_id : ℤ
  pub gas_limit : ℤ
  pub max_fee_per_gas : ℤ
  pub max_priority_fee_per_gas : ℤ
  pub nonce : ℤ
  pub nonce_key : ℤ
  pub valid_before : Option ℤ
  pub valid_after : Option ℤ
  pub fee_token : Option BytesLike
  pub awaiting_fee_payer : Bool
  pub calls : List Call
  pub access_list : List AccessEntry
  pub tempo_authorization_list : List BytesLike
  pub key_authorization : Option Rlp

-- Their default values.
abbrev pub default_args : CreateArgs
default_args = record {
  chain_id = pos default_chain_id;
  gas_limit = pos 21000;
  max_fee_per_gas = pos 0;
  max_priority_fee_per_gas = pos 0;
  nonce = pos 0;
  nonce_key = pos 0;
  valid_before = none;
  valid_after = none;
  fee_token = none;
  awaiting_fee_payer = false;
  calls = [];
  access_list = [];
  tempo_authorization_list = [];
  key_authorization = none;
}

-- The transaction of `cls(…)` in `create`, before its converters.
abbrev pub created : CreateArgs → List Bytes → TempoTransaction
created args auth_list = record {
  chain_id = args.chain_id;
  max_priority_fee_per_gas = args.max_priority_fee_per_gas;
  max_fee_per_gas = args.max_fee_per_gas;
  gas_limit = args.gas_limit;
  calls = args.calls;
  access_list = args.access_list;
  nonce_key = args.nonce_key;
  nonce = args.nonce;
  valid_before = args.valid_before;
  valid_after = args.valid_after;
  fee_token = none;
  sender_signature = none;
  fee_payer_signature = none;
  awaiting_fee_payer = args.awaiting_fee_payer;
  sender_address = none;
  tempo_authorization_list = auth_list;
  key_authorization = args.key_authorization;
}

-- `TempoTransaction.create`
unfoldable pub create : External → CreateArgs → Result TempoTransaction
create ext args = do
  auth_list ← traverse (as_bytes ext) args.tempo_authorization_list
  init ext (created args auth_list) args.fee_token none

unfoldable pub has_sender_signature : TempoTransaction → Bool
has_sender_signature tx = elim (tx.sender_signature) [ none ↦ false | some s ↦ true ]

unfoldable pub has_fee_payer_signature : TempoTransaction → Bool
has_fee_payer_signature tx = elim (tx.fee_payer_signature) [ none ↦ false | some s ↦ true ]

-- `TempoTransaction.clone`
unfoldable pub clone : External → TempoTransaction → Result TempoTransaction
clone ext tx = evolve ext (record tx { sender_signature = none; fee_payer_signature = none })
