-- ===== src/Samples.antt =====
-- Tests: concrete libraries, keys and transactions, and the theorems at them.
mod Codec
mod Setup
mod Signing
mod Records
mod Devnet
mod Localnet
mod Docker
mod Cluster
mod AccessKey
mod Passkey
mod Dictionaries
mod Scopes
mod Commands
mod Restrictions
mod Keys
mod Directories
