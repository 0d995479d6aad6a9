-- ===== src/Lib.antt =====
-- MertBlobStorage: a self-hosted server that speaks the HTTP protocol of Azure Blob Storage. It keeps
-- the metadata of accounts, containers, blobs and blocks in SQLite and the bytes in files under a
-- storage root.
--
-- The parts, and the files that model them:
--
-- - Base: shared tests, lists, texts as lists of UTF-8 bytes, and the laws of tables (lists of rows
--   with the queries, updates and upserts of SQL).
-- - Core (crates/blobstore-core/src): Core/Error is error.rs, Core/Model is model.rs, Core/Time is the
--   HTTP date and the ETag of lib.rs.
-- - Storage (crates/blobstore-storage): Storage/Db holds the rows of the tables of
--   migrations/0001_init.sql. Storage/Exec is the world in which an operation runs: the database, the
--   files, the number of readings of the clock, and for each coming call of SQLite or of the file
--   system whether it fails. An `async fn` that returns a Result is a function from a world to a result
--   and a world; what was written before an error stays written, except in a transaction. The
--   pool of connections is not represented: operations run one after another. Storage/Types is src/types.rs,
--   Storage/PathLayout is src/path_layout.rs, Storage/FsIo is src/fs_io.rs.
--   Storage/MetadataDb is src/metadata_db.rs, one child for each table: Statements has the SQL
--   statements with the constraints of the schema, Rows the decoding of rows, Listing the two paginated
--   queries. Storage/FsBackend is src/fs_backend.rs, with the operations on containers, blobs and
--   blocks. Storage/Backend is the trait StorageBackend of src/backend.rs and its implementation.
-- - Auth (crates/blobstore-auth/src): Auth/Types is lib.rs, Auth/Sas is sas.rs, Auth/SharedKey is
--   shared_key.rs, Auth/Bearer is bearer.rs, whose cache of signing keys is a state that each
--   validation takes and gives back.
-- - Xml (crates/blobstore-xml/src): Xml/Escape is lib.rs, Xml/BlockList is block_list.rs over the
--   events of the XML reader, Xml/Listings is list_containers.rs and list_blobs.rs, Xml/ErrorXml is
--   error_xml.rs.
-- - Api (crates/blobstore-api/src): Api/Http has requests, responses and header maps as the handlers
--   see them, Api/State is state.rs, Api/Query is query.rs, Api/Helpers is helpers.rs,
--   Api/ErrorResponse is error_response.rs. Api/Auth and Api/Middleware are auth.rs, the middleware in
--   front of every handler: it splits the path, asks the storage backend for the keys, and tries Shared
--   Key, a bearer token, a shared access signature and anonymous access in this order.
--   Api/AccountResolve is account_resolve.rs, which runs before it and puts the account in front of a
--   path that names none. Api/Handlers is handlers/, with `blob_get` in BlobReads and the other
--   operations on blobs in Blobs. Api/Router is lib.rs: the routes with the two layers around them.
-- - Server (crates/blobstore-server/src): Server/Config is config.rs, Server/Startup the part of main.rs
--   from the open backend to the state of the handlers.
-- - Tests: small instances of the parameters, runs, and the theorems applied to concrete inputs.
--
-- The functions keep the names of the source. An arm of a long match is a function of its own, named
-- for what it does. A parameter of the model stands for code of other crates and of the system:
-- Storage/Externals (JSON, digests, encodings, the clock and the calendar, SQLite's LIKE, texts of
-- errors), Auth/Externals (base64, HMAC-SHA-256, the clock, the parser of RFC 3339 dates, case and white
-- space of Unicode), Auth/Bearer.Issuer (the answers of the key server, the monotonic clock, the
-- jsonwebtoken crate), Xml/BlockList.XmlReader (the events of quick-xml), Api/Http.HttpLibrary (header
-- values, URL decoding, the parse of a URI's path and query, the match of paths against the routes,
-- axum's own answers, identifiers of requests). No theorem assumes anything of them beyond its stated conditions. The server takes the
-- validation of bearer tokens as an action on its world; the theorems about the database ask of it that
-- it leaves the database alone, as the cache of keys does. What ends a call that may panic is a value of its
-- own (Storage/Types.Failure).
--
-- Numbers: u64 sizes wrap at 2 ^ 64 where the source adds on u64 in a loop, and `max_results + 1` of
-- list_containers wraps at 2 ^ 32. Fuel: the copying of a part takes one more round than the part has
-- bytes, and every round but the last reads at least one byte; the printing of a number takes one more
-- step than the number. All other loops are by recursion on lists.
--
-- A failed call of SQLite or of the file system has no effect of its own. Directories are not
-- represented: creating and syncing them are calls that may fail, and removing a directory removes the
-- files under its path. A body is a list of chunks, of which any may be an error.
--
-- Not modelled: the layers of the configuration, sockets and TLS, signals, tracing, and the opening of the
-- database. Of the claims of a token only the subject is kept, since the server uses no other.
-- Concurrent requests and a crash between two calls are not represented either.
pub mod Base
pub mod Core
pub mod Storage
pub mod Auth
pub mod Xml
pub mod Api
pub mod Server
mod Tests
