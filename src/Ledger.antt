-- ===== src/Ledger.antt =====
-- The invariant that the invoice and payment handlers keep together, over the whole database.
pub mod Credits
pub mod Status
mod Invariant
pub mod Writes
pub mod Payments
pub mod Changes
pub mod Invoices
pub mod Reach
pub mod Limits
pub use Invariant.{IsBalanced, IsSettled, IsConsistent}
