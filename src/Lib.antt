-- ===== src/Lib.antt =====
-- The Hub Meta conversion service: a FastAPI service that keeps advertisers, pixels, conversion tags
-- and OAuth tokens in Postgres, and creates custom conversions at Meta through an adapter.
--
-- A request is served in one database session, which commits if the handler returns and rolls back if
-- it raises. The handler calls services, the services call repositories and the adapter, and what the
-- adapter has done at Meta stays done. A handler here is a function from a `World` to a result and a
-- `World` (Exec, Session), composed the way the code composes it.
--
-- The files and the code they model (paths from the repository's root):
-- - Exec: Python's exceptions over a mutable state, and the rules by which proofs go through it.
-- - Models, Models/Tables: app/models, rows and constraints. Errors: app/services/exceptions.py.
-- - Schemas: app/schemas. Meta/Schemas, Meta/Adapter, Meta/Mock, Meta/Client, Meta/Real:
--   app/integrations/meta, a file for each module; httpx, tenacity and pydantic are parameters there.
-- - Session: app/db/session.py, and the rows that a transaction sees. Env: what is not in the
--   repository (SQLAlchemy and Postgres, pydantic, json, hashlib, Meta), with its documented laws.
-- - Ddl: tables, columns and operations as data, with what Postgres makes of them. Migrations:
--   alembic/versions/20260101_0001_initial_schema.py. Metadata: app/db/base.py, and the columns of
--   app/models.
-- - Repositories/*: app/repositories, a file for each class.
-- - Security: `TokenCipher` of app/core/security.py. Security/Base64 is the part of Python's base64
--   that it uses, written out.
-- - OAuth, PixelSync, ConversionTags, Advertisers, Idempotency: app/services, a file for each class.
-- - Api: app/api/routes, and app/api/errors.py in Api/Responses. Requests: sequences of requests,
--   each in its own session.
-- - Config: app/core/config.py. Process: what a process keeps, `get_settings` and the engine of
--   app/db/session.py. Deps: app/api/deps.py, a request with its dependencies inside `get_session`.
--   Main: app/main.py, and app/api/routes/health.py.
-- - Keyed: what an Idempotency-Key promises, as a map from keys to replies with its steps, and the
--   handler as an implementation of it.
-- - Tests: a concrete environment, and the theorems at concrete inputs.
--
-- How the model stands to the code:
-- - UUIDs are numbers from a counter, since `uuid4` does not collide. Times are microseconds since the
--   epoch; `ticks` gives the time that passes before each reading of the clock, so theorems hold for
--   every course of time. Loops are structural, there is no fuel; the retries recur on the number of
--   attempts that the settings allow.
-- - Commits of other requests become visible at inserts, as arbitrary functions on the database
--   (`arrivals`). Visibility at other statements is not modelled.
-- - Rows obey unique constraints and foreign keys, and keep of a tag's value what Numeric(18, 4) keeps
--   (`held_tag`; the rounding is a parameter), while the object in the session keeps what was sent.
--   Otherwise the lengths and precisions of columns are declared in Metadata and Migrations, but no
--   insert is refused for them, nor for NUL characters.
--   `renewed` always sets `updated_at`, where SQLAlchemy writes nothing if no value changed.
-- - Exceptions keep the arguments of their messages; log lines are left out.
-- - A 422 for a body that pydantic refuses is the framework's: handlers take bodies that it accepted,
--   and Schemas says which these are.
--
-- Not modelled: the registration of routers, logging, the Alembic environment, and requests that run at
-- the same time in one process, of which only the commits are seen and the race for the session
-- factory (Process/Race).
pub mod Base
pub mod Exec
pub mod Meta
pub mod Models
pub mod Errors
pub mod Session
pub mod Repositories
pub mod Security
pub mod Schemas
pub mod Ddl
pub mod Migrations
pub mod Metadata
pub mod Config
pub mod Process
pub mod Env
pub mod OAuth
pub mod PixelSync
pub mod ConversionTags
pub mod Advertisers
pub mod Idempotency
pub mod Api
pub mod Requests
pub mod Keyed
pub mod Deps
pub mod Main
mod Tests
