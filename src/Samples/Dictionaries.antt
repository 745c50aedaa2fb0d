-- ===== src/Samples/Dictionaries.antt =====
-- Dictionaries of transactions: one in the legacy format, and one of a transaction.
use tempo_py.Prelude.{◌≡◌, refl, List, [], ◌∷◌, none, some, ok, inr, replicate}
use tempo_py.Prelude.Int.{pos}
use tempo_py.Types.{buffer}
use tempo_py.Models.Call.{AccessListItem}
use tempo_py.Models.TempoTransaction.FromDict.{TxDict, blank, from_dict}
use tempo_py.Models.TempoTransaction.Dictionary.{normalize, from_dict-normalize}
use tempo_py.Models.TempoTransaction.DictRoundTrip.{dict_of, from_dict-dict_of}
use tempo_py.Samples.Setup.{ext, bob, tx, tx-IsValid}

abbrev entries : List AccessListItem
entries = record { address = bob; storage_keys = replicate 32 3 ∷ [] } ∷ []

from_dict-dict_of_example : from_dict ext (dict_of tx entries) ≡ ok tx
from_dict-dict_of_example =
    from_dict-dict_of ext tx entries
      (record { sender_signature = refl; fee_payer_signature = refl; sender_address = refl }) refl
      tx-IsValid ((inr refl, refl), tt) ((refl, (refl, tt)), tt)

-- A recipient and a value, beside `calls` of None.
abbrev legacy : TxDict
legacy = record (dict_of tx entries) {
  calls = some blank;
  to = some (some (buffer bob));
  value = some (pos 5);
  nonce_key = some none;
}

from_dict-normalize_example : from_dict ext (normalize legacy) ≡ from_dict ext legacy
from_dict-normalize_example = from_dict-normalize ext legacy
