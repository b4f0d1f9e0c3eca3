-- ===== src/Tickets.antt =====
-- app/services/ticket_service.py: access rules, queries, mutations and the status workflow.
--
-- A call is one transaction: it runs on the committed rows and commits at most once, as its last
-- step, so a raise leaves the rows as they were. The row lock of `for_update` makes competing calls
-- run one after the other, which is how they run here. The UUID of a new row, the server's `now()`
-- and the `updated_at` that `session.refresh` reads back are arguments.
pub mod Query
pub mod Mutation
pub mod Access
pub mod Listing
pub mod Binding
pub mod Pages
pub mod Search
pub mod Effects
pub mod Edits
mod Tests
