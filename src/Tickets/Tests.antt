-- ===== src/Tickets/Tests.antt =====
-- The properties of app/services/ticket_service.py at concrete rows.
mod Like
mod Rows
