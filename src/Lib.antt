-- ===== src/Lib.antt =====
-- A model of the on-chain program of Omnipair (programs/omnipair/src), a constant-product market maker
-- whose pools lend their own reserves, with proofs of its accounting.
-- A shorter path, such as state/pair.rs, stands for programs/omnipair/src/state/pair.rs.
--
-- The program's parts. A pair (state/pair.rs) holds two tokens. Each has a virtual reserve, which the
-- curve trades on, and a cash reserve; the difference is lent, against collateral in the other token.
-- Debt is counted in shares (state/user_position.rs), grows by the rate model (state/rate_model.rs),
-- and collateral is valued at the lower of two moving averages of the price (utils/math.rs,
-- utils/gamm_math.rs). The instructions change the pair: swaps (instructions/spot), liquidity
-- (instructions/liquidity), lending (instructions/lending) and administration (instructions/futarchy).
-- Swaps, changes of liquidity, lending and the claim of protocol fees first call `Pair::update`, which
-- accrues interest and moves the averages to the current slot.
-- The circuit breaker (utils/liquidity_delta_circuit_breaker.rs) keeps liquidity changes and borrowing
-- out of the same transaction.
--
-- The files. Base has the shared names and tests on numbers, Word the arithmetic of unsigned words,
-- Int signed numbers, Outcome the error codes (errors.rs) and the result type, Constants the constants
-- (constants.rs). Math is utils/math.rs, Curve utils/gamm_math.rs, RateModel state/rate_model.rs,
-- Futarchy state/futarchy_authority.rs and, in Admin and Claim, instructions/futarchy, Pair
-- state/pair.rs, Position state/user_position.rs, Token utils/token.rs, Breaker the circuit breaker,
-- Swap instructions/spot/swap.rs, Liquidity instructions/liquidity (Add, Remove, Bootstrap, LpMint),
-- Lending instructions/lending (Borrow, Repay, Collateral, Liquidate, Flashloan), Views
-- instructions/emit_value.rs with Position.Price for the liquidation price. System is lib.rs: the
-- state of a pair with its positions and the token balances, its instructions as a step relation, and
-- in Dispatch as a function; in System.Request an instruction names its accounts, and in
-- System.History requests follow one another. Accounts is the `#[account(...)]` constraints of the
-- account structures: Pools those of swaps, liquidity, flash loans and fees, Positions those of
-- lending, Admin those of the authority and of the views, Creation those of the accounts that are
-- created. Vaults is the token accounts that a pair owns. Faucet is programs/faucet, Receiver
-- examples/flashloan_receiver. Functions keep the source's names, and the children of these files that
-- are not named here hold proofs. Tests has concrete inputs and the examples.
--
-- The model. A handler is a function from the accounts that it reads and the state to a `Result` of the
-- new state: a value, an error code, the abort of a panic, or an error of another program. An
-- instruction that does not return `ok` changes nothing. The slot of the clock, the keys and balances
-- of accounts, and the loaders of the instructions sysvar are arguments. Words are native numbers:
-- checked operations test against the modulus, casts take remainders, and plain arithmetic, which the
-- build checks for overflow, aborts. The fields of a pair that the source writes twice, with suffixes 0
-- and 1, are two values of one record `Side`, and branches that differ in the suffix only are one
-- function on it.
--
-- Fuel. `sqrt` on y has y + 1 rounds, enough since the iterate falls in every round
-- (Math.Sqrt); the loops of the logarithm have 64 rounds, enough for every `u64`
-- (RateModel.Reduction).
--
-- Parameters. The token programs are a record of operations on a ledger (Token.TokenProgram), with the
-- laws of a transfer as a hypothesis where they are used. The receiver of a flash loan is a function,
-- and what the creation of a pair calls, with the hash and the build, is the record
-- Liquidity.LpMint.Programs. What Anchor and the runtime know of an account, its address, mint,
-- authority and signature, is the record Accounts.Chain. Where the vaults are followed (Vaults), the
-- token programs also keep the laws of minting and burning and transfer between accounts of one mint
-- only, and nobody but the program takes anything from the vaults, since only a pair signs for them.
--
-- Steps. An instruction is two steps, the update of the pair and the validated handler, and before them
-- the opening of a position where the instruction creates it. The invariant of a state speaks of
-- reserves and share totals below their largest words: at the largest word the code saturates, and the
-- sums that the invariant states end.
--
-- Not modelled: events, but for the computations in them that can fail; of an account, its type, and
-- that it is not there yet where an instruction creates it; how a view prints its values; the
-- generated decoders and the audit's tests, which are not part of the program.
pub mod Accounts
pub mod Base
pub mod Breaker
pub mod Constants
pub mod Curve
pub mod Faucet
pub mod Futarchy
pub mod Int
pub mod Lending
pub mod Liquidity
pub mod Math
pub mod Outcome
pub mod Pair
pub mod Position
pub mod RateModel
pub mod Receiver
pub mod Swap
pub mod System
pub mod Tests
pub mod Token
pub mod Vaults
pub mod Views
pub mod Word
