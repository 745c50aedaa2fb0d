-- ===== src/Keychain/Keywords.antt =====
-- The converters of tempo/keychain.py, which take dictionaries in place of limits, rules and scopes.
use tempo_py.Prelude.{
  Bool, not, List, [], Option, none, some, Result, ok, err, type_error, ◌>>=◌, ◌>>◌, require,
  traverse,
}
use tempo_py.Prelude.Int.{ℤ, pos}
use tempo_py.External.{External}
use tempo_py.Types.{BytesLike, as_bytes, as_address, as_optional_address, validate_nonempty_address}
use tempo_py.Keychain.Scopes.{
  TokenLimit, create_token_limit, SelectorRule, create_selector_rule, CallScope, KeyRestrictions,
  create_restrictions,
}
use tempo_py.Keychain.Authorization.{KeyAuthorization, checked}

-- What a converter is given: an object of the class, a dictionary, or a value that `**` does not
-- take.
pub data Argument (A K : Type 0) : Type 0 where
  object : A → Argument A K
  keywords : K → Argument A K
  no_mapping : Argument A K

-- `x if isinstance(x, Class) else Class(**x)`
abbrev pub convert : {A K : Type 0} → (K → Result A) → Argument A K → Result A
convert build (object a) = ok a
convert build (keywords k) = build k
convert build no_mapping = err type_error

-- A parameter without a default, and one with a default.
abbrev pub keyword {ℓ} : {A : Type ℓ} → Option A → Result A
keyword none = err type_error
keyword (some a) = ok a

abbrev pub keyword_or {ℓ} : {A : Type ℓ} → Option A → A → A
keyword_or none default = default
keyword_or (some a) default = a

-- A dictionary for `TokenLimit.create`; `has_unknown` tells of a key that is no parameter.
pub record LimitKeywords : Type 0 where
  pub token : Option BytesLike
  pub limit : Option ℤ
  pub period : Option ℤ
  pub has_unknown : Bool

-- `TokenLimit.create(**t)`
unfoldable pub limit_of_keywords : External → LimitKeywords → Result TokenLimit
limit_of_keywords ext t = do
  require (not t.has_unknown) type_error
  token ← keyword t.token
  limit ← keyword t.limit
  create_token_limit ext token limit (keyword_or t.period (pos 0))

pub record RuleKeywords : Type 0 where
  pub selector : Option BytesLike
  pub recipients : Option (List BytesLike)
  pub has_unknown : Bool

-- `SelectorRule.create(**r)`
unfoldable pub rule_of_keywords : External → RuleKeywords → Result SelectorRule
rule_of_keywords ext r = do
  require (not r.has_unknown) type_error
  selector ← keyword r.selector
  create_selector_rule ext selector (keyword_or r.recipients [])

-- `CallScope(target=…, selector=…, selector_rules=…)`: the three converters, then the validator.
unfoldable pub convert_call_scope :
    External → BytesLike → BytesLike → List (Argument SelectorRule RuleKeywords) → Result CallScope
unfolding rule_of_keywords validate_nonempty_address
convert_call_scope ext target selector rules = do
  t ← as_address ext target
  s ← as_bytes ext selector
  rs ← traverse (convert (rule_of_keywords ext)) rules
  validate_nonempty_address t
  ok (record { target = t; selector = s; selector_rules = rs })

pub record ScopeKeywords : Type 0 where
  pub target : Option BytesLike
  pub selector : Option BytesLike
  pub selector_rules : Option (List (Argument SelectorRule RuleKeywords))
  pub has_unknown : Bool

-- `CallScope(**c)`
unfoldable pub scope_of_keywords : External → ScopeKeywords → Result CallScope
unfolding convert_call_scope
scope_of_keywords ext c = do
  require (not c.has_unknown) type_error
  target ← keyword c.target
  selector ← keyword c.selector
  convert_call_scope ext target selector (keyword_or c.selector_rules [])

abbrev pub Limits : Type 0
Limits = List (Argument TokenLimit LimitKeywords)

abbrev pub Scopes : Type 0
Scopes = List (Argument CallScope ScopeKeywords)

-- The converters of `limits` and `allowed_calls`.
unfoldable pub convert_limits : External → Limits → Result (List TokenLimit)
unfolding limit_of_keywords
convert_limits ext limits = traverse (convert (limit_of_keywords ext)) limits

unfoldable pub convert_scopes : External → Scopes → Result (List CallScope)
unfolding scope_of_keywords
convert_scopes ext scopes = traverse (convert (scope_of_keywords ext)) scopes

-- `KeyRestrictions(…)`
unfoldable pub convert_restrictions :
    External → ℤ → Bool → Limits → Bool → Scopes → Result KeyRestrictions
unfolding convert_limits convert_scopes
convert_restrictions ext expiry enforce_limits limits allow_any_calls allowed_calls = do
  ls ← convert_limits ext limits
  cs ← convert_scopes ext allowed_calls
  ok (create_restrictions expiry enforce_limits ls allow_any_calls cs)

-- `v if v is None else tuple(…)`
abbrev pub unless_none {ℓ κ} :
    {A : Type ℓ} {B : Type κ} → (A → Result B) → Option A → Result (Option B)
unless_none f none = ok none
unless_none f (some a) = f a >>= λ b. ok (some b)

-- `KeyAuthorization(…)`: the converters in the order of the attributes, the validator of `key_id`,
-- then `__attrs_post_init__`.
unfoldable pub convert_authorization :
    External
    → BytesLike
    → ℤ
    → Option BytesLike
    → ℤ
    → ℤ
    → Option Limits
    → Option Scopes
    → BytesLike
    → Bool
    → Result KeyAuthorization
unfolding checked validate_nonempty_address convert_limits convert_scopes
convert_authorization ext key_id chain_id account key_type expiry limits allowed_calls witness
      is_admin =
    do
      id ← as_address ext key_id
      acc ← as_optional_address ext account
      ls ← unless_none (convert_limits ext) limits
      cs ← unless_none (convert_scopes ext) allowed_calls
      w ← as_bytes ext witness
      validate_nonempty_address id
      checked (record {
        key_id = id;
        chain_id = chain_id;
        account = acc;
        key_type = key_type;
        expiry = expiry;
        limits = ls;
        allowed_calls = cs;
        witness = w;
        is_admin = is_admin;
      })
