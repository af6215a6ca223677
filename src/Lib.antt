-- ===== src/Lib.antt =====
-- tinydm: a document server in Go: projects hold buckets, buckets hold documents with versions, tags
-- and properties; users, API keys and rights decide who may do what.
--
-- How the parts interact. A request meets `auth.Authenticator`, which finds the principal (Auth/Middleware,
-- with the tokens of Auth/Token and the users and keys of Auth/Users and Auth/ApiKeys). The handlers
-- then ask `auth.Can` (Auth/Rbac) with the rights that Auth/Rights reads, and call `repo.Store` (Repo).
-- A table of routes (Api/Routes) puts the middleware around the handlers; that of the audit log
-- (Audit/Middleware) records what the request did.
-- Both stores run SQL statements on one database, whose tables are the record `Tables` (Schema).
--
-- Files and code:
--   Prelude, Prelude/*        names, Boolean tests, integers, lists, texts (Go's package strings)
--   Sql                       internal/db/db.go and database/sql: an operation is a function from a
--                             connection to a result and a connection; a connection carries the
--                             tables, the engine, and for each statement whether the driver fails there
--   Sql/Table, Sql/Like       SELECT, UPDATE, DELETE and INSERT on rows with `deleted_at`; LIKE
--   Schema                    the tables of internal/db/migrations, and the structs of the two stores
--   Auth, Auth/Rbac           internal/auth/context.go, internal/auth/rbac.go
--   Auth/Users, Auth/ApiKeys, Auth/Rights   internal/auth/store.go, internal/auth/password.go
--   Auth/Token, Auth/Middleware             internal/auth/token.go, internal/auth/middleware.go
--   Repo, Repo/*              internal/repo/store.go, a file for each kind of resource
--   Api, Api/*                internal/api: handler.go and context.go, and a file for each handler file
--   Api/Documents/Upload      internal/api/documents.go: the handlers that store content
--   Api/Routes, Api/Routes/*  internal/api/routes.go: the table of routes and its middleware
--   Api/Security              internal/api/security.go: the names of files
--   Audit, Audit/*, Api/Audit internal/audit/store.go, internal/audit/middleware.go, internal/api/audit.go
--   Cluster, Cluster/*        internal/cluster/leader.go, internal/cluster/locker.go
--   Config, Strconv           internal/config/config.go, and the numbers that are parsed and printed
--   Db                        internal/db/db.go: placeholders, Open and Migrate
--   Meta, Meta/*              internal/meta/extractor.go, a file for each family of formats
--   Storage, Storage/*        internal/storage/storage.go: the local store
--   Utf8, Utf8/*              Go's package unicode/utf8
--   Web, Web/*                internal/web/web.go, internal/web/handlers.go: sessions, pages, documents, users
--   Tests, Tests/*            concrete inputs
-- A method of a Go type has its name in snake case (`UpdateDocument` is `update_document`); a new
-- identifier (`uuid.New`) and the present time are arguments; `CURRENT_TIMESTAMP` is a text that the
-- connection's world gives.
--
-- Bounds. Identifiers and texts are unbounded, sizes and versions are natural numbers (the source has
-- int64 and int), and Go's `int` is ℤ where a negative number can reach the code. No loop needs fuel.
--
-- Not modelled: the storage backends in a cloud and the choice between them, the constant headers
-- of SecurityHeaders, the web interface's templates and its pages of lists, projects, buckets, API
-- keys, rights and the audit log, the generated code of internal/db/gen, SQL migrations, logging
-- and the main program. golang-jwt, bcrypt, base64, SHA-256, goose, the parser of multipart forms,
-- the detection of types and the decoders of file formats are parameters. Statements of different
-- requests do not interleave.
pub mod Prelude
pub mod Sql
pub mod Schema
pub mod Repo
pub mod Auth
pub mod Api
pub mod Cluster
pub mod Config
pub mod Storage
pub mod Strconv
pub mod Tests
pub mod Utf8
pub mod Web
pub mod Meta
pub mod Audit
pub mod Db
