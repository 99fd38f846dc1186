-- ===== src/Orderbook.antt =====
-- programs/fructus/src/orderbook.rs: the matching engine over an in-memory book, and the prices and
-- time-weighted averages read from it. An owner is a public key, a number that is only compared.
mod Defs
pub mod Engine
pub mod Twap
unfoldable pub use Defs.*
