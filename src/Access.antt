-- ===== src/Access.antt =====
-- An access request and its session: the rows, the transactions on them, and the life of a session.
pub mod Model
pub mod Rows
pub mod Queue
pub mod Life
pub mod Moves
pub mod Sessions
pub mod Revokes
pub mod Commands
pub mod Ledger
pub mod Booking
pub mod Outcomes
pub mod Revocation
pub mod Requests
pub mod Cancellation
pub mod Expiry
pub mod Decisions
pub mod Verdicts
pub mod Provision
pub mod Steps
pub mod Locked
pub mod Provisioned
pub mod Guards
pub mod Landing
pub mod Runs
pub mod Override
pub mod Withdrawal
