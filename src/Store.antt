-- ===== src/Store.antt =====
-- The database and the effects of a request: rows, table queries, the world that the services
-- share, and handlers over it.
mod Rows
pub mod Table
pub mod Order
mod Effects
mod State
mod Handler
pub use Rows.*
pub use Effects.*
pub use State.*
pub use Handler.*
