-- ===== src/Invoice.antt =====
-- backend/src/controllers/appControllers/invoiceController: create, update, read and remove. The
-- router runs each handler under `catchErrors`.
pub mod Create
pub mod Update
pub mod Remove
pub mod Listing
