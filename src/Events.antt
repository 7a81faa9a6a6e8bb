-- ===== src/Events.antt =====
-- crates/rg-events/src/lib.rs: the event-sourced write path. A command is validated against the
-- state, becomes an event, is appended to the log, and is applied to the state.
pub mod Command
pub mod Event
pub mod EventId
pub mod State
pub mod Apply
pub mod Validate
pub mod Log
