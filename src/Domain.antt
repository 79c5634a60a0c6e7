-- ===== src/Domain.antt =====
-- crates/domain.
pub mod Identifier
pub mod Money
pub mod Transaction
pub mod Account
pub mod Credential
pub mod Equipment
pub mod Event
mod Examples
