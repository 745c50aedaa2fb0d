-- ===== src/Keychain.antt =====
-- tempo/keychain.py: access keys, their restrictions, their authorization and their signatures.
-- `KeychainSignature` of that file has a module of its own, since transactions hold one.
pub mod Scopes
pub mod Authorization
pub mod Trailing
pub mod ScopeLaws
pub mod Sign
pub mod Verify
pub mod Passkey
pub mod Keywords
pub mod Mixed
pub mod AccessKey
pub mod Checks
