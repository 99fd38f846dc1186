-- ===== src/Lib.antt =====
-- Fructus, a perpetual-futures program on Solana whose index is the exchange rate of a stake pool
-- (programs/fructus/src). Orders rest in a bounded book in one account; a match appends fills to a
-- bounded ring of events; the taker's fills are applied to its position at once and a maker's by
-- settle_fill; collateral stays in one vault and is booked on per-user ledgers; gains and losses go
-- through the PnL pool of the market.
--
-- The parts, with the files of this library and of the program:
-- - Base, Int, Errors (with Steps): Boolean tests, lists and machine words over the native numbers,
--   signed words, the results of instructions (error.rs); no code of its own but FructusError.
-- - Constants: constants.rs and the byte encodings of lib.rs.
-- - Collateral: collateral.rs. Settlement: settlement.rs. Positions: positions.rs, with Pnl on the two
--   sides of a position. Funding: funding.rs. Liquidation: liquidation.rs. Their functions bear the
--   source's names; a Rust Option is an Option.
-- - Exchange: exchange.rs and read_stake_pool of lib.rs, on the bytes of an account; RoundTrip
--   writes them.
-- - State: the accounts of state.rs, the bounds on parameters, and update_message.
-- - Ed25519: ed25519.rs, on the list of the instructions of a transaction; Layout tells the bytes of
--   an instruction, Signed which transactions pass.
-- - Orderbook: orderbook.rs. Defs has the types and prices, Engine match_order, post_limit and
--   cancel, Twap the time-weighted average, with Line, Searches, Answers and Steady on a mid that
--   does not move. The children of Engine are proofs: Priority (which maker is chosen), Rounds
--   (what a round keeps), Matching (what match_order does), Surviving and Orderly
--   (well-formedness), Posting, Quotes. Reference tells matching without the loop, as a walk along
--   the makers in price-time order; Queue, Choice and Refinement are the proof that the loop is
--   that walk.
-- - Adapter: the helpers of lib.rs. Books reads and writes the book account, Events is the event
--   ring (Ring: what an append does, Writes: all that is ever written on it), Observations the ring
--   of mids, Takers the paths of a taker, Crank drain_events, Fills the booking of fills on a
--   position, Slots what none of them writes.
-- - Handlers: the instructions of lib.rs. Orders (place_limit_order, place_market_order,
--   cancel_order, crank), Oracle (initialize, initialize_market, update_apy and the setters), Vault
--   (deposit_collateral, withdraw_collateral), Lifecycle (open_position, close_position,
--   settle_fill, reset_position), Settling (settle_close, settle_funding; Once: each pays once),
--   Liquidating (liquidate), Genesis (initialize_order_book, initialize_collateral_vault). Accounts
--   has the structs under derive(Accounts) with their constraints as tests, and instructions as
--   constraints and handler: Ownership (whose accounts), Oracles (sequences of calls on the
--   oracle).
-- - Protocol: all accounts of one market in one state, every instruction that changes them as a
--   step, and the states that steps lead to. Ledgers is the store of ledgers, Solvency what the
--   vault owes, Orderly the book account, Margins the margin of every position, Booking a maker's
--   fill, Payout a withdrawal, Genesis the start.
-- - Tests: runs on concrete accounts, and each theorem at a concrete input.
--
-- The model: an account is a record, an instruction takes the accounts that it writes and returns them
-- or an error, and a failed instruction has no effect, as the runtime reverts it; where the source
-- goes on after a failure, in the crank, the function returns the state with the failure. A public key
-- is a number, compared only. Unsigned words are native numbers, checked, saturated or wrapped where
-- the source does so; i128 is Int. A Rust panic is the error `panicked`. What the source gets from
-- outside is a parameter: the token transfer (Handlers.Vault), the derivation of PDAs (Runtime,
-- Framework), SHA-256 and the id of the ed25519 program (Verifier), the calls that create the vault
-- (VaultCalls), the current slot. In Protocol a step is given the state of the stake pool and the slot
-- freely; the addresses that an accounts struct derives from seeds are derived, the others are free.
--
-- Loops: the loop of match_order runs on fuel, the number of makers and two rounds more; each round
-- stops, fills the taker or removes a maker, so the fuel does not run out. A batch of
-- the crank has at most eight rounds, by the source's own bound. bit_length has 128 rounds, the width of u128.
--
-- Not modelled: the order and the kinds of the errors that Anchor raises on accounts (one error stands
-- for all), rent and account creation within the handlers, logs; the TypeScript clients. liquidate is
-- modelled with two different ledgers for the victim and the liquidator, as the framework refuses one
-- writable account handed in twice. Only the ownership and oracle instructions are joined to their
-- account constraints; the steps of Protocol use the addresses that the constraints fix.
pub mod Base
pub mod Int
pub mod Errors
pub mod Constants
pub mod Collateral
pub mod Settlement
pub mod Positions
pub mod Funding
pub mod Liquidation
pub mod Exchange
pub mod State
pub mod Ed25519
pub mod Orderbook
pub mod Adapter
pub mod Handlers
pub mod Protocol
pub mod Tests
