-- ===== src/Contract.antt =====
-- core/verification_contract.py: the declared verification contract.
pub mod Defs
pub mod Normal
pub mod Roundtrip
