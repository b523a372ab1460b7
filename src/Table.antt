-- ===== src/Table.antt =====
-- The fragment of SQL that `storage` gives the services: a table is the list of its rows in the
-- order of insertion, and one statement is one function on it. A `session_scope` that raises rolls
-- back, so a failed call returns the table that it was given.
mod Laws
mod Defs
mod Keys
pub use Laws.*
pub use Keys.*
unfoldable pub use Defs.{scalar, select, update, row_count}
pub use Defs.{Keyed}
