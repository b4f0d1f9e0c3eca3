-- ===== src/Models.antt =====
-- The tables of the database: app/models/*.py and the migration alembic/versions. An identifier
-- (a UUID) and an instant are natural numbers, which the program only compares and prints.
mod Enums
mod Members
mod Rows
pub mod Samples
unfoldable pub use Enums.*
unfoldable pub use Rows.*
unfoldable pub use Members.*
