-- ===== src/Lib.antt =====
-- TicketFlow is a help-desk service. Customers open tickets and comment on them; agents see every
-- ticket and move it along the lifecycle OPEN, IN_PROGRESS, RESOLVED, CLOSED. The code stands
-- under app/: the HTTP and WebSocket endpoints (app/api) check the caller and call the services
-- (app/services), which read and write the rows of app/models in PostgreSQL and keep counters in
-- Redis.
--
-- Models: app/models and alembic/versions. The enumerations, the rows of the five tables and the
-- database `Db`, with one list of rows for each table. Timestamps and UUIDs are numbers, texts
-- are lists of code points. OPEN is spelled `opened`.
--
-- Exec: services as functions that take the state and return a result beside the new state, with
-- the exceptions of app/services and app/api/errors.py as values of `Error`.
--
-- Tickets: app/services/ticket_service.py. Query has the access scope, the text search and the
-- paginated list; Mutation creates, updates and deletes tickets and changes their status. Access,
-- Listing, Binding, Pages and Search are about the first, Effects and Edits about the second.
--
-- Comments: app/services/comment_service.py.
--
-- RateLimit: app/services/rate_limit_service.py. Redis is the interface RateLimit/Commands: INCR,
-- EXPIRE, TTL and the passing of time, with their documented effects: time is in milliseconds,
-- and TTL rounds to the nearest second.
--
-- Websockets: app/services/ws_manager.py. A critical section of the lock is one step, and
-- `broadcast` takes the list of calls that run while it waits for its sends.
--
-- Webhooks: app/services/webhook_service.py. Webhooks.antt registers and schedules, Delivery
-- makes the attempts and logs them. The JSON encoder and HMAC are the interface `Codec`; an HTTP
-- call is a function from the request to its outcome.
--
-- Auth: app/services/auth_service.py, app/core/security.py and app/core/deps.py. Password hashing
-- with its exceptions, JWT signing, UUID parsing and lower-casing are the interfaces of
-- Auth/Libraries; a token is a value of a type that the JWT library chooses.
--
-- Cache: app/services/cache_service.py and `get_list` of app/api/v1/tickets.py, which reads
-- through it. Redis, pydantic's JSON and the hash of the filters are the interfaces of
-- Cache/Libraries; the hash is taken to have no collisions.
--
-- Dashboard: app/services/dashboard_service.py.
--
-- Api: app/api/v1/tickets.py, comments.py and ws.py, the handlers that change tickets, composed
-- of the services above: App is what they act on, Tickets the handlers, Announcements what a
-- change of status announces, Creation what a new ticket does by its customer's counter; Sockets
-- is the admission of a socket in app/api/v1/ws.py, Comments the posting of a comment in
-- app/api/v1/comments.py, Errors the responses of app/api/errors.py to the exceptions. The
-- limiter, Redis, the encoder and the printing of UUIDs are parameters.
--
-- Api also has app/api/v1/auth.py (Auth, with Clients and Logins on its limiter),
-- app/api/v1/webhooks.py (Webhooks, with History on the deliveries), the rest of
-- app/api/errors.py (Failures), app/api/health.py (Health), and the reads (Queries has the query
-- parameters of the list, Reads the endpoints behind their dependencies, Listed the answers of
-- the list). Secrets compares the responses of databases that differ in what must not be told,
-- Order the reads of databases that store the same rows in another order. Websockets/Serving is
-- `_serve_channel` of app/api/v1/ws.py, and Auth/Seed is app/seed.py.
--
-- Schemas: the request classes of app/schemas. A body is an association list of JSON values, and
-- a schema returns the request or nothing; what pydantic's field types accept is the interface of
-- Schemas/Values. Requests has the schemas, Acceptance and Accounts say which bodies they accept,
-- Reading their single steps; Updates, Patches and Patching are about the update of a ticket, and
-- Columns and Stored about histories of requests.
--
-- Migrations: alembic/versions and the tables that app/models declares. Objects has the
-- statements of a migration on a catalog of enumerations, tables and indexes, with what
-- PostgreSQL refuses; Initial is the migration, Metadata the declarations under the naming
-- convention of app/db/base.py, Frame and RoundTrip compare them.
--
-- Workflow: sequences of calls of the ticket and comment services, one transaction after the
-- other. Rows carries a property of the stored rows through them; Progress and Advances are about
-- the place of a ticket in the lifecycle.
--
-- Histories: sequences of the program's writing transactions: a request passes the dependency of
-- app/core/deps.py that its endpoint names and then calls its service; accounts are registered
-- and seeded while others commit theirs, under the constraints of the table; events are scheduled
-- and their deliveries run later, in any order. Accounts, Subscriptions, Deliveries and Requests
-- are about the single transactions, Whole about all.
--
-- Base: Boolean tests, lists, sorting, searching and updating rows, texts and dictionaries that
-- the components share.
--
-- New UUIDs, the time, random secrets and what `onupdate=func.now()` writes are arguments of the
-- functions. The SQL of the source is written out as what it says: WHERE is `filter`, ORDER BY is
-- a sort, LIMIT and OFFSET are `take` and `drop`, SELECT of one row is `find`, and ON DELETE
-- CASCADE removes the comments of a deleted ticket. A service call runs as one step, as the
-- transaction and the row lock of the source make it: two calls interleave as whole calls. ILIKE
-- is an interface with PostgreSQL's documented rules, and the largest OFFSET that the driver
-- binds is an argument. Texts that are stored are taken to be without the character 0, which
-- PostgreSQL refuses in any text. No function runs on fuel: every loop is a structural recursion
-- on a list.
--
-- Not modelled: the assembly of the application (app/main.py), the reading of the environment and
-- the engine (app/core/config.py, app/db/session.py), Alembic's environment (alembic/env.py),
-- which only call libraries; the reading of query strings as numbers and words, pydantic's error
-- messages, SQLAlchemy's relationships, and the logging.
pub mod Base
pub mod Models
pub mod Exec
pub mod Tickets
pub mod Comments
pub mod RateLimit
pub mod Websockets
pub mod Webhooks
pub mod Workflow
pub mod Auth
pub mod Dashboard
pub mod Cache
pub mod Api
pub mod Schemas
pub mod Migrations
pub mod Histories
