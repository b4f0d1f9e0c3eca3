-- ===== src/Schemas.antt =====
-- app/schemas: what each request must look like, and what its handler is given.
pub mod Values
pub mod Requests
pub mod Reading
pub mod Acceptance
pub mod Updates
pub mod Patches
pub mod Patching
pub mod Columns
pub mod Stored
pub mod Accounts
pub mod Checks
mod Tests
