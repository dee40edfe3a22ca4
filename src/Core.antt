-- ===== src/Core.antt =====
-- The library tap_core.
pub mod Primitives
pub mod Receipt
pub mod Error
pub mod SignedMessage
pub mod Rav
pub mod Checks
pub mod Truncate
pub mod Action
pub mod Adapters
pub mod Clock
pub mod Manager
pub mod Memory
