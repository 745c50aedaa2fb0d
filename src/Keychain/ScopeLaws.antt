-- ===== src/Keychain/ScopeLaws.antt =====
-- What a call scope allows on the wire, and what the restrictions' builders leave.
use tempo_py.Prelude.{◌≡◌, ◌≢◌, ◌↔◌, [], arith}
use tempo_py.Python.Bytes.{Bytes, eqb→eq, eqb_refl}
use tempo_py.Keychain.Scopes.{CallScope, zero_selector, wire_rules, call_scope_to_rlp}

-- The wire form of a scope has no rules, which allows every function of the target, exactly when
-- the scope has no rules and its selector is the zero selector.
pub wire_rules_unrestricted :
    (c : CallScope) → (wire_rules c ≡ []) ↔ ((c.selector_rules ≡ []) × (c.selector ≡ zero_selector))
unfolding wire_rules
wire_rules_unrestricted c = ground (arith, eqb→eq c.selector zero_selector, eqb_refl c.selector)

-- A scope that has rules is written without its selector: two scopes with the same target and the
-- same rules have the same wire form, whatever their selectors are.
pub call_scope_to_rlp_ignores_selector :
    (c : CallScope) (selector : Bytes)
    → c.selector_rules ≢ []
    → call_scope_to_rlp (record c { selector = selector }) ≡ call_scope_to_rlp c
unfolding call_scope_to_rlp
call_scope_to_rlp_ignores_selector c selector h = ground arith
