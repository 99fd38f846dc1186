-- ===== src/Adapter.antt =====
-- programs/fructus/src/lib.rs, the helpers between the accounts and the pure modules.
pub mod Books
pub mod Events
pub mod Observations
pub mod Takers
pub mod Crank
pub mod Slots
pub mod Fills
