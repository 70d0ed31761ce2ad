-- ===== src/Core.antt =====
-- app/core: error codes, exceptions and their HTTP answers, and the idempotency table.
pub mod ErrorCode
pub mod Result
pub mod Idempotency
pub mod Triple
pub mod Http
pub mod Raises
