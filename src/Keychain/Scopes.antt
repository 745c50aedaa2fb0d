-- ===== src/Keychain/Scopes.antt =====
-- `TokenLimit`, `SelectorRule`, `CallScope` and `KeyRestrictions` of tempo/keychain.py.
use tempo_py.Prelude.{
  ◌++◌, Bool, true, false, not, if◌then◌else◌, List, [], ◌∷◌, map, replicate, Result, ok,
  value_error, ◌>>=◌, ◌>>◌, require, traverse,
}
use tempo_py.Prelude.Int.{ℤ, pos, ltb_ℤ, eqb_ℤ}
use tempo_py.Python.Bytes.{Bytes, eqb}
use tempo_py.External.{External, Rlp, bytes, int, seq}
use tempo_py.Types.{Address, BytesLike, buffer, as_bytes, as_address, validate_nonempty_address}

pub record TokenLimit : Type 0 where
  pub token : Address
  pub limit : ℤ
  pub period : ℤ

-- `_validate_token_limit`
unfoldable pub validate_token_limit : ℤ → Result (Unit {0})
validate_token_limit value = require (not (ltb_ℤ value (pos 0))) value_error

-- `TokenLimit.create`: the converter of `token`, then the three validators.
unfoldable pub create_token_limit : External → BytesLike → ℤ → ℤ → Result TokenLimit
unfolding validate_token_limit validate_nonempty_address
create_token_limit ext token limit period = do
  token' ← as_address ext token
  validate_nonempty_address token'
  validate_token_limit limit
  validate_token_limit period
  ok (record { token = token'; limit = limit; period = period })

-- `TokenLimit.to_rlp`
unfoldable pub token_limit_to_rlp : TokenLimit → Rlp
token_limit_to_rlp t =
    if eqb_ℤ t.period (pos 0)
    then seq (bytes t.token ∷ int t.limit ∷ [])
    else seq (bytes t.token ∷ int t.limit ∷ int t.period ∷ [])

pub record SelectorRule : Type 0 where
  pub selector : Bytes
  pub recipients : List Address

-- `SelectorRule.create`
unfoldable pub create_selector_rule : External → BytesLike → List BytesLike → Result SelectorRule
create_selector_rule ext selector recipients = do
  s ← as_bytes ext selector
  rs ← traverse (as_address ext) recipients
  ok (record { selector = s; recipients = rs })

-- `SelectorRule.to_rlp`
unfoldable pub selector_rule_to_rlp : SelectorRule → Rlp
selector_rule_to_rlp r = seq (bytes r.selector ∷ seq (map bytes r.recipients) ∷ [])

-- `_ZERO_SELECTOR`
abbrev pub zero_selector : Bytes
zero_selector = replicate 4 0

pub record CallScope : Type 0 where
  pub target : Address
  pub selector : Bytes
  pub selector_rules : List SelectorRule

-- `CallScope(target=…, selector=…, selector_rules=…)` with rules that are SelectorRule objects.
unfoldable pub new_call_scope :
    External → BytesLike → BytesLike → List SelectorRule → Result CallScope
unfolding validate_nonempty_address
new_call_scope ext target selector rules = do
  t ← as_address ext target
  s ← as_bytes ext selector
  validate_nonempty_address t
  ok (record { target = t; selector = s; selector_rules = rules })

-- The rules that `CallScope.to_rlp` writes: a plain selector is folded into a rule.
unfoldable pub wire_rules : CallScope → List SelectorRule
wire_rules c = elim (c.selector_rules) [
  | [] ↦
      if not (eqb c.selector zero_selector)
      then record { selector = c.selector; recipients = [] } ∷ []
      else []
  | r ∷ rs ↦ r ∷ rs
]

-- `CallScope.to_rlp`
unfoldable pub call_scope_to_rlp : CallScope → Rlp
unfolding wire_rules
call_scope_to_rlp c = seq (bytes c.target ∷ seq (map selector_rule_to_rlp (wire_rules c)) ∷ [])

-- `CallScope.transfer` and `CallScope.approve`, at the selector that the TIP-20 ABI gives.
unfoldable pub scope_of_function : External → Bytes → Address → Result CallScope
scope_of_function ext selector token = new_call_scope ext (buffer token) (buffer selector) []

-- `CallScope.unrestricted`
unfoldable pub unrestricted : External → BytesLike → Result CallScope
unrestricted ext target = new_call_scope ext target (buffer zero_selector) []

-- `CallScope.with_selector`
unfoldable pub with_selector :
    External → BytesLike → BytesLike → List SelectorRule → Result CallScope
with_selector ext target selector rules = new_call_scope ext target selector rules

pub record KeyRestrictions : Type 0 where
  pub expiry : ℤ
  pub enforce_limits : Bool
  pub limits : List TokenLimit
  pub allow_any_calls : Bool
  pub allowed_calls : List CallScope

-- `KeyRestrictions.create`, with limits and scopes that are objects of their classes.
unfoldable pub create_restrictions :
    ℤ → Bool → List TokenLimit → Bool → List CallScope → KeyRestrictions
create_restrictions expiry enforce_limits limits allow_any_calls allowed_calls = record {
  expiry = expiry;
  enforce_limits = enforce_limits;
  limits = limits;
  allow_any_calls = allow_any_calls;
  allowed_calls = allowed_calls;
}

unfoldable pub with_limits : KeyRestrictions → List TokenLimit → KeyRestrictions
with_limits k limits = record k { enforce_limits = true; limits = limits }

unfoldable pub add_call : KeyRestrictions → CallScope → KeyRestrictions
add_call k call_scope = record k {
  allow_any_calls = false;
  allowed_calls = k.allowed_calls ++ (call_scope ∷ []);
}

unfoldable pub as_admin : KeyRestrictions → KeyRestrictions
as_admin k = record k {
  expiry = pos 0;
  enforce_limits = false;
  limits = [];
  allow_any_calls = true;
  allowed_calls = [];
}

-- `1 if b else 0`
abbrev pub bit : Bool → Rlp
bit b = int (if b then pos 1 else pos 0)

-- `KeyRestrictions.to_rlp`
unfoldable pub key_restrictions_to_rlp : KeyRestrictions → Rlp
key_restrictions_to_rlp k = seq (
    int k.expiry
    ∷ bit k.enforce_limits
    ∷ seq (map token_limit_to_rlp k.limits)
    ∷ bit k.allow_any_calls
    ∷ seq (map call_scope_to_rlp k.allowed_calls)
    ∷ [])
