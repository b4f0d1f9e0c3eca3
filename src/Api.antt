-- ===== src/Api.antt =====
-- The endpoints of app/api/v1: which services the handlers call, in which order, what they announce and what
-- they answer. The checked user of a dependency is an argument of a handler that writes; Reads and Sockets
-- have their dependencies before them.
pub mod App
pub mod Tickets
pub mod Announcements
pub mod Creation
pub mod Sockets
pub mod Comments
pub mod Errors
pub mod Auth
pub mod Clients
pub mod Logins
pub mod Webhooks
pub mod Secrets
pub mod History
pub mod Order
pub mod Queries
pub mod Reads
pub mod Listed
pub mod Failures
pub mod Health
mod Tests
