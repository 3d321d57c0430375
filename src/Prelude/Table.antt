-- ===== src/Prelude/Table.antt =====
-- A database table as the list of its rows in row order, and the SQL forms that the store uses.
mod Rows
mod Keyed
mod History
mod Order
mod Deleted
mod Found
unfoldable pub use Rows.*
unfoldable pub use Deleted.*
pub use Found.*
pub use Keyed.*
pub use History.*
unfoldable pub use Order.*
