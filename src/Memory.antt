-- ===== src/Memory.antt =====
-- internal/memory and internal/store/memory.go: the memory stores, their memories and the versions
-- of them.
pub mod Rows
pub mod Statements
pub mod Like
pub mod Table
pub mod Sound
pub mod History
pub mod Logged
pub mod Recorded
pub mod Service
pub mod Calls
pub mod Faithful
pub mod Bounds
pub mod Requests
pub mod Limits
pub mod Mount
pub mod Shell
pub mod Quote
pub mod Prefix
