-- ===== src/Samples/Restrictions.antt =====
-- An authorization whose limits and scopes are objects and dictionaries.
use tempo_py.Prelude.{◌≡◌, refl, inr, Bool, true, false, List, [], ◌∷◌, map, some}
use tempo_py.Prelude.Int.{pos}
use tempo_py.Types.{buffer}
use tempo_py.Keychain.Scopes.{TokenLimit, CallScope}
use tempo_py.Keychain.Authorization.{new_authorization}
use tempo_py.Keychain.Keywords.{convert_authorization}
use tempo_py.Keychain.Mixed.{
  keywords_of_limit, keywords_of_scope, written, object_of, convert_authorization-written,
}
use tempo_py.Samples.Setup.{ext, alice, bob}

abbrev limit : TokenLimit
limit = record { token = bob; limit = pos 100; period = pos 0 }

abbrev limits : List (Bool × TokenLimit)
limits = (true, limit) ∷ (false, limit) ∷ []

abbrev scopes : List (Bool × CallScope)
scopes =
    (
      true,
      record {
        target = bob;
        selector = [];
        selector_rules = record { selector = 1 ∷ 2 ∷ 3 ∷ 4 ∷ []; recipients = alice ∷ [] } ∷ [];
      },
    )
    ∷ []

convert_authorization-written_example :
    convert_authorization ext
      (buffer bob)
      (pos 4217)
      (some (buffer alice))
      (pos 0)
      (pos 9)
      (some (map (written keywords_of_limit) limits))
      (some (map (written keywords_of_scope) scopes))
      (buffer [])
      false
    ≡ new_authorization ext
        (buffer bob)
        (pos 4217)
        (some (buffer alice))
        (pos 0)
        (pos 9)
        (some (map object_of limits))
        (some (map object_of scopes))
        (buffer [])
        false
convert_authorization-written_example =
    convert_authorization-written ext (buffer bob) (pos 4217) (some (buffer alice)) (pos 0) (pos 9)
      (some limits) (some scopes) (buffer []) false ((refl, refl, refl), ((refl, refl, refl), tt))
      ((refl, ((inr refl, tt), tt)), tt)
