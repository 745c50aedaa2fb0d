-- ===== src/Keychain/Mixed.antt =====
-- Limits and scopes may be given as objects or as dictionaries, in any mixture.
use tempo_py.Prelude.{
  ◌≡◌, refl, inr, Bool, true, false, List, [], ◌∷◌, map, Option, none, some, Result, ok, traverse,
  All, length,
}
use tempo_py.Prelude.Int.{ℤ, pos, ltb_ℤ}
use tempo_py.External.{External}
use tempo_py.Types.{Address, BytesLike, buffer, as_bytes, as_address, validate_nonempty_address}
use tempo_py.Types.Laws.{IsAddress, as_address_lem}
use tempo_py.Keychain.Scopes.{
  TokenLimit, create_token_limit, validate_token_limit, SelectorRule, create_selector_rule,
  CallScope,
}
use tempo_py.Keychain.Authorization.{new_authorization}
use tempo_py.Keychain.Keywords.{
  Argument, object, keywords, convert, LimitKeywords, limit_of_keywords, RuleKeywords,
  rule_of_keywords, convert_call_scope, ScopeKeywords, scope_of_keywords, convert_limits,
  convert_scopes, unless_none, convert_authorization,
}
use mathlib.Core.Option

abbrev pub IsLimit : TokenLimit → Type 0
IsLimit t =
    (length t.token ≡ 20) × (ltb_ℤ t.limit (pos 0) ≡ false) × (ltb_ℤ t.period (pos 0) ≡ false)

abbrev pub IsRule : SelectorRule → Type 0
IsRule r = All IsAddress r.recipients

abbrev pub IsScope : CallScope → Type 0
IsScope c = (length c.target ≡ 20) × All IsRule c.selector_rules

-- The dictionary of an object's fields.
abbrev pub keywords_of_limit : TokenLimit → LimitKeywords
keywords_of_limit t = record {
  token = some (buffer t.token);
  limit = some t.limit;
  period = some t.period;
  has_unknown = false;
}

abbrev pub keywords_of_rule : SelectorRule → RuleKeywords
keywords_of_rule r = record {
  selector = some (buffer r.selector);
  recipients = some (map buffer r.recipients);
  has_unknown = false;
}

-- Its rules are dictionaries, too.
abbrev pub keywords_of_scope : CallScope → ScopeKeywords
keywords_of_scope c = record {
  target = some (buffer c.target);
  selector = some (buffer c.selector);
  selector_rules = some (map (λ r. keywords (keywords_of_rule r)) c.selector_rules);
  has_unknown = false;
}

-- An object, or its dictionary where the Boolean says so.
abbrev pub written : {A K : Type 0} → (A → K) → Bool × A → Argument A K
written dict (true, a) = keywords (dict a)
written dict (false, a) = object a

abbrev pub object_of : {A : Type 0} → Bool × A → A
object_of (b, a) = a

limit-keywords :
    (ext : External) (t : TokenLimit)
    → IsLimit t
    → limit_of_keywords ext (keywords_of_limit t) ≡ ok t
unfolding limit_of_keywords create_token_limit validate_token_limit validate_nonempty_address
limit-keywords ext t h = rw (as_address_lem ext t.token (inr h.0), h.0, h.1, h.2) refl

traverse-as_address :
    (ext : External) (addrs : List Address)
    → All IsAddress addrs
    → traverse (as_address ext) (map buffer addrs) ≡ ok addrs
traverse-as_address ext [] h = refl
traverse-as_address ext (a ∷ addrs) h =
    rw (as_address_lem ext a h.0, traverse-as_address ext addrs h.1) refl

rule-keywords :
    (ext : External) (r : SelectorRule)
    → IsRule r
    → rule_of_keywords ext (keywords_of_rule r) ≡ ok r
unfolding rule_of_keywords create_selector_rule as_bytes
rule-keywords ext r h = rw (traverse-as_address ext r.recipients h) refl

rules-keywords :
    (ext : External) (rs : List SelectorRule)
    → All IsRule rs
    → traverse (convert (rule_of_keywords ext)) (map (λ r. keywords (keywords_of_rule r)) rs)
      ≡ ok rs
rules-keywords ext [] h = refl
rules-keywords ext (r ∷ rs) h = rw (rule-keywords ext r h.0, rules-keywords ext rs h.1) refl

scope-keywords :
    (ext : External) (c : CallScope)
    → IsScope c
    → scope_of_keywords ext (keywords_of_scope c) ≡ ok c
unfolding scope_of_keywords convert_call_scope as_bytes validate_nonempty_address
scope-keywords ext c h =
    rw (as_address_lem ext c.target (inr h.0), rules-keywords ext c.selector_rules h.1, h.0) refl

module _ {A K : Type 0} (build : K → Result A) (dict : A → K) (P : A → Type 0)
    (reads : (a : A) → P a → build (dict a) ≡ ok a) where
  convert-written :
      (x : Bool × A) → P (object_of x) → convert build (written dict x) ≡ ok (object_of x)
  convert-written (true, a) h = reads a h
  convert-written (false, a) h = refl

  traverse-written :
      (xs : List (Bool × A))
      → All (λ x. P (object_of x)) xs
      → traverse (convert build) (map (written dict) xs) ≡ ok (map object_of xs)
  traverse-written [] h = refl
  traverse-written (x ∷ xs) h = rw (convert-written x h.0, traverse-written xs h.1) refl

-- Nothing is asked of None.
abbrev pub AllSet : {A : Type 0} → (A → Type 0) → Option (List (Bool × A)) → Type 0
AllSet P none = Unit
AllSet P (some xs) = All (λ x. P (object_of x)) xs

limits-written :
    (ext : External) (xs : Option (List (Bool × TokenLimit)))
    → AllSet IsLimit xs
    → unless_none (convert_limits ext) (Option.map (map (written keywords_of_limit)) xs)
      ≡ ok (Option.map (map object_of) xs)
unfolding convert_limits
limits-written ext none h = refl
limits-written ext (some xs) h =
    rw
      (traverse-written (limit_of_keywords ext) keywords_of_limit IsLimit (limit-keywords ext) xs h)
      refl

scopes-written :
    (ext : External) (xs : Option (List (Bool × CallScope)))
    → AllSet IsScope xs
    → unless_none (convert_scopes ext) (Option.map (map (written keywords_of_scope)) xs)
      ≡ ok (Option.map (map object_of) xs)
unfolding convert_scopes
scopes-written ext none h = refl
scopes-written ext (some xs) h =
    rw
      (traverse-written (scope_of_keywords ext) keywords_of_scope IsScope (scope-keywords ext) xs h)
      refl

-- `KeyAuthorization` comes to the same, an exception included, whether its limits and its scopes
-- are given as valid objects or, any of them, as the dictionaries of their fields, those of scopes
-- with dictionaries for their rules.
pub convert_authorization-written :
    (ext : External) (key_id : BytesLike) (chain_id : ℤ) (account : Option BytesLike)
    (key_type expiry : ℤ) (limits : Option (List (Bool × TokenLimit)))
    (scopes : Option (List (Bool × CallScope))) (witness : BytesLike) (is_admin : Bool)
    → AllSet IsLimit limits
    → AllSet IsScope scopes
    → convert_authorization ext key_id chain_id account key_type expiry
        (Option.map (map (written keywords_of_limit)) limits)
        (Option.map (map (written keywords_of_scope)) scopes)
        witness
        is_admin
      ≡ new_authorization ext key_id chain_id account key_type expiry
          (Option.map (map object_of) limits)
          (Option.map (map object_of) scopes)
          witness
          is_admin
unfolding convert_authorization new_authorization
convert_authorization-written ext key_id chain_id account key_type expiry limits scopes witness
      is_admin hl hs =
    rw (limits-written ext limits hl, scopes-written ext scopes hs) refl
