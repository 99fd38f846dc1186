-- ===== src/Tests.antt =====
-- Examples: the theorems applied at concrete inputs.
mod Fixtures
mod Ledgers
mod Rates
mod Engine
mod Orders
mod Trades
mod System
mod Access
