-- ===== src/Store.antt =====
-- The JSON store of the panel (backend/internal/store/store.go): its state, saving, the operation
-- log and administrators. The data in memory and the data last written to the file are two
-- fields; what the operating system, the clock and the random source return are arguments.
pub mod Policy
pub mod SingleMode
mod State
unfoldable pub use State.*
