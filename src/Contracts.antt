-- ===== src/Contracts.antt =====
-- tempo/contracts/keychain.py: the builders of calls to the AccountKeychain precompile.
pub mod Abi
pub mod Laws
use tempo_py.Prelude.{
  Bool, true, false, List, [], ◌∷◌, map, Option, none, some, Result, ok, err, type_error,
  index_error, ◌>>=◌, traverse,
}
use tempo_py.Prelude.Int.{ℤ, pos}
use tempo_py.Python.Bytes.{Bytes, Str}
use tempo_py.External.{External}
use tempo_py.Types.{BytesLike, str, buffer}
use tempo_py.Models.Call.{Call, create_call}
use tempo_py.Contracts.Abi.{
  KeychainContract, Restrictions, LimitArg, limit, limit_object, ScopeArg, empty, target_only, pair,
  scope, text, RuleArg, rule_object,
}

-- The keyword arguments of `_build_restrictions_tuple`.
pub record RestrictionArgs : Type 0 where
  pub expiry : ℤ
  pub enforce_limits : Bool
  pub limits : Option (List LimitArg)
  pub allow_any_calls : Bool
  pub allowed_calls : Option (List ScopeArg)

abbrev pub default_restriction_args : RestrictionArgs
default_restriction_args = record {
  expiry = pos 0;
  enforce_limits = false;
  limits = none;
  allow_any_calls = true;
  allowed_calls = none;
}

-- `xs or []`
abbrev pub list_or_empty {ℓ} : {A : Type ℓ} → Option (List A) → List A
list_or_empty none = []
list_or_empty (some xs) = xs

-- `tuple(lim)`, of an object that can be iterated over
unfoldable pub limit_tuple : LimitArg → Result (BytesLike × (ℤ × ℤ))
limit_tuple (limit token amount period) = ok (token, (amount, period))
limit_tuple (limit_object l) = err type_error

unfoldable pub scope_target : ScopeArg → Result BytesLike
scope_target empty = err index_error
scope_target (target_only target) = ok target
scope_target (pair target rules) = ok target
scope_target (scope c) = ok (buffer c.target)
scope_target (text s) = ok (str s)

unfoldable pub scope_rules : ScopeArg → List RuleArg
scope_rules empty = []
scope_rules (target_only target) = []
scope_rules (pair target rules) = rules
scope_rules (scope c) = map rule_object c.selector_rules
scope_rules (text s) = []

abbrev pub scope_tuple : ScopeArg → Result (BytesLike × List RuleArg)
scope_tuple s = scope_target s >>= λ target. ok (target, scope_rules s)

unfoldable pub build_restrictions_tuple : RestrictionArgs → Result Restrictions
unfolding limit_tuple scope_target scope_rules
build_restrictions_tuple args = do
  limits ← traverse limit_tuple (list_or_empty args.limits)
  calls ← traverse scope_tuple (list_or_empty args.allowed_calls)
  ok (record {
    expiry = args.expiry;
    enforce_limits = args.enforce_limits;
    limits = limits;
    allow_any_calls = args.allow_any_calls;
    allowed_calls = calls;
  })

module _ (ext : External) (abi : KeychainContract) where
  -- `Call.create(to=ACCOUNT_KEYCHAIN_ADDRESS, data=data)`
  abbrev pub keychain_call : Bytes → Result Call
  keychain_call call_data = create_call ext (str abi.keychain_address) (pos 0) (buffer call_data)

  unfoldable pub authorize_key : Str → ℤ → RestrictionArgs → Result Call
  unfolding build_restrictions_tuple
  authorize_key key_id signature_type args = do
    restrictions ← build_restrictions_tuple args
    call_data ← abi.authorize_data key_id signature_type restrictions
    keychain_call call_data

  unfoldable pub authorize_key_with_witness : Str → ℤ → RestrictionArgs → Bytes → Result Call
  unfolding build_restrictions_tuple
  authorize_key_with_witness key_id signature_type args witness = do
    restrictions ← build_restrictions_tuple args
    call_data ← abi.authorize_with_witness_data key_id signature_type restrictions witness
    keychain_call call_data

  unfoldable pub revoke_key : Str → Result Call
  revoke_key key_id = abi.revoke_data key_id >>= keychain_call

  unfoldable pub update_spending_limit : Str → Str → ℤ → Result Call
  update_spending_limit key_id token new_limit =
      abi.spending_limit_data key_id token new_limit >>= keychain_call

  unfoldable pub set_allowed_calls : Str → List ScopeArg → Result Call
  set_allowed_calls key_id scopes = abi.set_allowed_data key_id scopes >>= keychain_call

  unfoldable pub remove_allowed_calls : Str → Str → Result Call
  remove_allowed_calls key_id target = abi.remove_allowed_data key_id target >>= keychain_call

  unfoldable pub authorize_admin_key : Str → ℤ → Bytes → Result Call
  authorize_admin_key key_id signature_type witness =
      abi.authorize_admin_data key_id signature_type witness >>= keychain_call

  unfoldable pub burn_key_auth_witness : Bytes → Result Call
  burn_key_auth_witness witness = abi.burn_witness_data witness >>= keychain_call

  -- `fn.decode(w3.eth.call({"to": ACCOUNT_KEYCHAIN_ADDRESS, "data": fn.data}))`
  abbrev query : Bytes → Result Bool
  query call_data = abi.eth_call abi.keychain_address call_data >>= abi.decode

  unfoldable pub is_admin_key : Str → Str → Result Bool
  is_admin_key account key_id = abi.is_admin_data account key_id >>= query

  unfoldable pub is_key_auth_witness_burned : Str → Bytes → Result Bool
  is_key_auth_witness_burned account witness = abi.is_burned_data account witness >>= query
