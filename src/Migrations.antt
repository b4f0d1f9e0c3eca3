-- ===== src/Migrations.antt =====
-- The schema of the database: alembic/versions, and the tables that app/models declares.
pub mod Objects
pub mod Initial
pub mod Metadata
pub mod Frame
pub mod RoundTrip
mod Tests
