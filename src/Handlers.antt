-- ===== src/Handlers.antt =====
-- programs/fructus/src/lib.rs: the instruction handlers. A handler takes the accounts that it reads,
-- the current slot and its arguments, and returns the accounts that it writes: the runtime discards all
-- changes of an instruction that fails. Account constraints that the framework generates (signers,
-- PDA seeds, ownership of typed accounts) hold for the accounts that a handler is given.
pub mod Runtime
pub mod Orders
pub mod Oracle
pub mod Vault
pub mod Lifecycle
pub mod Settling
pub mod Liquidating
pub mod Genesis
pub mod Accounts
