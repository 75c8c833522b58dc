-- ===== src/Tests.antt =====
-- Concrete libraries that satisfy the hypotheses on third-party code, and applications of the
-- theorems to concrete requests.
pub mod Models
pub mod Ledger
pub mod Auth
pub mod Entities
pub mod Session
pub mod Summaries
pub mod Client
pub mod Tables
pub mod Payments
pub mod Setup
pub mod Views
pub mod Paths
pub mod Logins
pub mod Pages
pub mod Lists
pub mod Dashboard
pub mod Updates
pub mod Reads
pub mod News
