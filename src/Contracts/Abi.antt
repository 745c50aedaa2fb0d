-- ===== src/Contracts/Abi.antt =====
-- The ABI encoder that tempo/contracts/keychain.py calls: eth_contract's `Contract.from_abi`.
use tempo_py.Prelude.{Bool, List, Result}
use tempo_py.Prelude.Int.{ℤ}
use tempo_py.Python.Bytes.{Bytes, Str}
use tempo_py.Types.{BytesLike}
use tempo_py.Keychain.Scopes.{TokenLimit, SelectorRule, CallScope}

-- A rule of a scope: a tuple of a selector and recipients, or an object of `SelectorRule`.
pub data RuleArg : Type 0 where
  rule : BytesLike → List BytesLike → RuleArg
  rule_object : SelectorRule → RuleArg

-- A scope: a tuple of no part, of a target, or of a target and rules (and more, which nothing
-- reads), an object of `CallScope`, or an object without a target, by its `str`.
pub data ScopeArg : Type 0 where
  empty : ScopeArg
  target_only : BytesLike → ScopeArg
  pair : BytesLike → List RuleArg → ScopeArg
  scope : CallScope → ScopeArg
  text : Str → ScopeArg

-- A limit: a tuple or a list of a token, an amount and a period, or an object of `TokenLimit`.
pub data LimitArg : Type 0 where
  limit : BytesLike → ℤ → ℤ → LimitArg
  limit_object : TokenLimit → LimitArg

-- The tuple `KeyRestrictions` of the ABI.
pub record Restrictions : Type 0 where
  pub expiry : ℤ
  pub enforce_limits : Bool
  pub limits : List (BytesLike × (ℤ × ℤ))
  pub allow_any_calls : Bool
  pub allowed_calls : List (BytesLike × List RuleArg)

-- `ACCOUNT_KEYCHAIN_ADDRESS`, and `ACCOUNT_KEYCHAIN.fns.<function>(…).data` for the functions of
-- the contract; `authorizeKey` also as it is called with a fourth argument. `eth_call` is
-- `w3.eth.call` at an address, and `decode` reads the answer of a function that returns a Boolean.
pub record KeychainContract : Type 0 where
  pub keychain_address : Str
  pub authorize_data : Str → ℤ → Restrictions → Result Bytes
  pub authorize_with_witness_data : Str → ℤ → Restrictions → Bytes → Result Bytes
  pub revoke_data : Str → Result Bytes
  pub spending_limit_data : Str → Str → ℤ → Result Bytes
  pub set_allowed_data : Str → List ScopeArg → Result Bytes
  pub remove_allowed_data : Str → Str → Result Bytes
  pub authorize_admin_data : Str → ℤ → Bytes → Result Bytes
  pub burn_witness_data : Bytes → Result Bytes
  pub is_admin_data : Str → Str → Result Bytes
  pub is_burned_data : Str → Bytes → Result Bytes
  pub eth_call : Str → Bytes → Result Bytes
  pub decode : Bytes → Result Bool
