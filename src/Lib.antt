-- ===== src/Lib.antt =====
-- Models and theorems for tempo-py, the Python SDK for Tempo transactions.
--
-- A TempoTransaction (tempo/models.py) holds calls, fees and signatures. tempo/transaction.py turns
-- it into a list of RLP fields, serializes that for its sender and for a fee payer, hashes the text
-- and signs or verifies the hash through tempo/signer.py. tempo/keychain.py lets an access key sign
-- for a root account: its signature, a secp256k1 one or one of tempo/p256.py, is wrapped together
-- with the root's address. Arguments of all of these pass through the coercions of tempo/types.py.
--
-- The files and what they model:
-- - Prelude, Python: helpers; Python's signed integers, bytes, int.to_bytes, int.from_bytes and
--   bit_length, base64url, UTF-8, and JSON text with readers for it. Integers are unbounded, as in Python; a byte is a number below 256.
-- - External: eth_utils, eth_account and rlp, which are parameters, and the laws that they document.
-- - Types: tempo/types.py.
-- - Models: tempo/models.py, with Call, AccessListItem, Signature and TempoTransaction. `create_call`
--   is Call.create; `init` and `evolve` are the attrs constructor and attrs.evolve;
--   TempoTransaction/FromDict is from_dict, over a record of the keys that it reads.
-- - Transaction: the encoders and serialized forms of tempo/transaction.py; Transaction/Sign has
--   sign_transaction, add_fee_payer_signature and the verifiers, Transaction/Topic
--   parse_topic_address.
-- - Contracts: tempo/contracts/keychain.py, over the ABI encoder of Contracts/Abi.
-- - Builder: the fluent Builder of tempo/transaction.py, each method a `Setter` on its state.
-- - Signer: tempo/signer.py.
-- - P256: tempo/p256.py, over pycryptodome and SHA-256 as the parameter Curve of P256/Ecc;
--   P256/WebAuthn has the assertions, whose texts Python/Base64, Python/Json and Python/Utf8 write.
-- - KeychainSignature and Keychain: tempo/keychain.py; Keychain/Scopes has the restrictions,
--   Keychain/Authorization the key authorization and its trailing RLP form, Keychain/Keywords the
--   converters from dictionaries, Keychain/Sign the signing with an access key.
-- - Devnet: the devnet generator tempo/devnet. Ports is ports.py, over the sockets as a parameter;
--   Config and DevnetConfig are config.py, from the values of the YAML file, over ipaddress as a
--   parameter; Backends and Layout are backends.py, over the generator's run as a parameter; Shell
--   and Docker are the wrapper scripts and Compose files of supervisor.py, over the identities of the
--   enode files, and Supervisor its supervisord.ini, over the merge of a genesis patch. Cluster is
--   cluster.py, over supervisord and the entries of the data directory. Enode is the directories and
--   keys of services in supervisor.py. Cli is cli.py: the overrides and checks of init; Cli/Init
--   has its steps on a machine, whose data directory the other parts fill, and start and serve.
--   Shell/Words reads a script as a shell does. Ports and times are natural numbers.
-- - Samples: concrete libraries, keys and transactions at which the theorems are instantiated.
--
-- An exception is a value of Result, with the class of the exception. Python's `bit_length` runs on
-- the number itself as fuel, which is enough since each round halves it, and the decimal text of a
-- number likewise, since each round takes a tenth; the 200 attempts of the search for ports are the
-- source's. A reader of JSON objects, which the theorems on client data use, runs on the length of
-- the text, since each member takes a character at least. No other loop needs fuel.
--
-- Not modelled: checksummed address text; the token bindings of tempo/contracts, which are an ABI; of
-- tempo/devnet the table that status prints, reading and writing YAML and TOML, and overrides of
-- init that name a method of the configuration or give a value of another type than the attribute's.
pub mod Prelude
pub mod Python
pub mod External
pub mod Types
pub mod Models
pub mod P256
pub mod KeychainSignature
pub mod Signer
pub mod Transaction
pub mod Keychain
pub mod Contracts
pub mod Builder
pub mod Devnet
pub mod Samples
