-- ===== src/Builder.antt =====
-- `Builder` of tempo/transaction.py: its setters as operations on its state, and `build`.
pub mod Laws
use tempo_py.Prelude.{
  ℕ, Bool, true, false, List, [], ◌∷◌, ◌++◌, Option, none, some, Result, ok, ◌>>=◌,
}
use tempo_py.Prelude.Int.{ℤ, pos}
use tempo_py.External.{External}
use tempo_py.Types.{Address, BytesLike, buffer, as_optional_address}
use tempo_py.Models.Call.{Call, AccessListItem, create_call, create_access_list_item}
use tempo_py.Models.TempoTransaction.{
  TempoTransaction, CreateArgs, AccessEntry, item, default_chain_id, create,
}
use mathlib.Core.Option

-- The state of `Builder`.
pub record Builder : Type 0 where
  pub chain_id : ℤ
  pub max_priority_fee : ℤ
  pub max_fee : ℤ
  pub gas_limit : ℤ
  pub calls : List Call
  pub access_list : List AccessEntry
  pub nonce_key : ℤ
  pub nonce : ℤ
  pub valid_before : Option ℤ
  pub valid_after : Option ℤ
  pub fee_token : Option Address
  pub awaiting_fee_payer : Bool

-- `Builder.__init__`
abbrev pub initial : Builder
initial = record {
  chain_id = pos default_chain_id;
  max_priority_fee = pos 0;
  max_fee = pos 0;
  gas_limit = pos 21000;
  calls = [];
  access_list = [];
  nonce_key = pos 0;
  nonce = pos 0;
  valid_before = none;
  valid_after = none;
  fee_token = none;
  awaiting_fee_payer = false;
}

-- A call of one of its methods.
pub data Setter : Type 0 where
  chain_id : ℤ → Setter
  max_priority_fee_per_gas : ℤ → Setter
  max_fee_per_gas : ℤ → Setter
  gas_limit : ℤ → Setter
  nonce : ℤ → Setter
  nonce_key : ℤ → Setter
  valid_before : ℤ → Setter
  valid_after : ℤ → Setter
  fee_token : Option BytesLike → Setter
  awaiting_fee_payer : Bool → Setter
  add_call : BytesLike → ℤ → BytesLike → Setter
  add_access_list_entry : BytesLike → List BytesLike → Setter

unfoldable pub apply : External → Setter → Builder → Result Builder
apply ext (chain_id cid) b = ok (record b { chain_id = cid })
apply ext (max_priority_fee_per_gas fee) b = ok (record b { max_priority_fee = fee })
apply ext (max_fee_per_gas fee) b = ok (record b { max_fee = fee })
apply ext (gas_limit gas) b = ok (record b { gas_limit = gas })
apply ext (nonce n) b = ok (record b { nonce = n })
apply ext (nonce_key key) b = ok (record b { nonce_key = key })
apply ext (valid_before ts) b = ok (record b { valid_before = some ts })
apply ext (valid_after ts) b = ok (record b { valid_after = some ts })
apply ext (fee_token token) b = do
  t ← as_optional_address ext token
  ok (record b { fee_token = t })
apply ext (awaiting_fee_payer val) b = ok (record b { awaiting_fee_payer = val })
apply ext (add_call to value call_data) b = do
  c ← create_call ext to value call_data
  ok (record b { calls = b.calls ++ (c ∷ []) })
apply ext (add_access_list_entry address storage_keys) b = do
  i ← create_access_list_item ext address storage_keys
  ok (record b { access_list = b.access_list ++ (item i ∷ []) })

-- A chain of calls, in order.
unfoldable pub chain : External → List Setter → Builder → Result Builder
chain ext [] b = ok b
chain ext (s ∷ rest) b = apply ext s b >>= λ b'. chain ext rest b'

abbrev pub arguments : Builder → CreateArgs
arguments b = record {
  chain_id = b.chain_id;
  gas_limit = b.gas_limit;
  max_fee_per_gas = b.max_fee;
  max_priority_fee_per_gas = b.max_priority_fee;
  nonce = b.nonce;
  nonce_key = b.nonce_key;
  valid_before = b.valid_before;
  valid_after = b.valid_after;
  fee_token = Option.map buffer b.fee_token;
  awaiting_fee_payer = b.awaiting_fee_payer;
  calls = b.calls;
  access_list = b.access_list;
  tempo_authorization_list = [];
  key_authorization = none;
}

-- `Builder.build`
unfoldable pub build : External → Builder → Result TempoTransaction
build ext b = create ext (arguments b)
