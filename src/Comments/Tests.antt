-- ===== src/Comments/Tests.antt =====
-- The comment properties at the sample rows.
