-- ===== src/Contexts.antt =====
-- The contexts of the client's pages, frontend/src/context: each keeps which panels, boxes and modals
-- are open, with a reducer and the actions that the components dispatch.
pub mod Panels
pub mod Boxes
pub mod Profile
pub mod Menu
