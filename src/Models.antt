-- ===== src/Models.antt =====
-- tempo/models.py: calls, access lists, signatures and transactions.
pub mod Call
pub mod Signature
pub mod TempoTransaction
