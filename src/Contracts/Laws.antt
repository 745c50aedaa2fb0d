-- ===== src/Contracts/Laws.antt =====
-- What the builders pass on of scopes, and where their calls go.
use tempo_py.Prelude.{◌≡◌, ◌≢◌, ◌⊎◌, inl, inr, Bool-cases, refl, List, [], ◌∷◌, map}
use tempo_py.Python.Bytes.{eqb, eqb→eq, eqb-ne}
use tempo_py.Keychain.Scopes.{CallScope, SelectorRule, zero_selector, wire_rules}
use tempo_py.Contracts.Abi.{scope, rule_object}
use tempo_py.Contracts.{scope_rules}

-- A scope object is passed on with the rules that the key authorization's wire form has exactly when
-- it has rules, or its selector is the zero selector. Any other scope allows one function, and is
-- passed on without rules, which allows every function of the target.
pub scope_rules-wire_rules :
    (c : CallScope)
    → ((c.selector_rules ≢ []) ⊎ (c.selector ≡ zero_selector))
        × (scope_rules (scope c) ≡ map rule_object (wire_rules c))
      ⊎ ((c.selector_rules ≡ [])
          × (c.selector ≢ zero_selector)
          × (scope_rules (scope c) ≡ [])
          × (wire_rules c ≡ record { selector = c.selector; recipients = [] } ∷ []))
unfolding scope_rules wire_rules
scope_rules-wire_rules c = go c.selector_rules
  where
    go :
        (rules : List SelectorRule)
        → let d = record c { selector_rules = rules } in
          ((rules ≢ []) ⊎ (c.selector ≡ zero_selector))
            × (scope_rules (scope d) ≡ map rule_object (wire_rules d))
          ⊎ ((rules ≡ [])
              × (c.selector ≢ zero_selector)
              × (scope_rules (scope d) ≡ [])
              × (wire_rules d ≡ record { selector = c.selector; recipients = [] } ∷ []))
    go (r ∷ rs) = inl (inl (λ e. cc (e)), refl)
    go [] = elim (Bool-cases (eqb c.selector zero_selector)) [
      | inl e ↦ inl (inr (eqb→eq c.selector zero_selector e), rw e refl)
      | inr e ↦ inr (refl, eqb-ne c.selector zero_selector e, refl, rw e refl)
    ]
