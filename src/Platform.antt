-- ===== src/Platform.antt =====
-- What the operator runs on: errors, the calls that it makes and the answers that it gets.
pub mod Errors
pub mod Calls
pub mod Env
pub mod Stored
pub mod Action
pub mod Moves
pub mod Emits
pub mod State
