-- ===== src/Payment.antt =====
-- backend/src/controllers/appControllers/paymentController: create, update and remove, which keep
-- the credit and the payment status of the invoices.
pub mod Create
pub mod Update
pub mod Remove
