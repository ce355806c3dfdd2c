-- ===== src/Store.antt =====
-- internal/store: the session table and the event log, each operation as an action.
pub mod Session
pub mod Event
pub mod Log
pub mod Settled
