-- ===== src/Samples/Scopes.antt =====
-- A scope of one function, as the call builders pass it on.
use tempo_py.Prelude.{◌≡◌, ◌≢◌, ◌⊎◌, [], ◌∷◌, map}
use tempo_py.Keychain.Scopes.{CallScope, zero_selector, wire_rules}
use tempo_py.Contracts.Abi.{scope, rule_object}
use tempo_py.Contracts.{scope_rules}
use tempo_py.Contracts.Laws.{scope_rules-wire_rules}
use tempo_py.Samples.Setup.{bob}

-- `CallScope.transfer`
abbrev transfer : CallScope
transfer = record { target = bob; selector = 0xa9 ∷ 0x05 ∷ 0x9c ∷ 0xbb ∷ []; selector_rules = [] }

scope_rules-wire_rules_example :
    ((transfer.selector_rules ≢ []) ⊎ (transfer.selector ≡ zero_selector))
      × (scope_rules (scope transfer) ≡ map rule_object (wire_rules transfer))
    ⊎ ((transfer.selector_rules ≡ [])
        × (transfer.selector ≢ zero_selector)
        × (scope_rules (scope transfer) ≡ [])
        × (wire_rules transfer ≡ record { selector = transfer.selector; recipients = [] } ∷ []))
scope_rules-wire_rules_example = scope_rules-wire_rules transfer
