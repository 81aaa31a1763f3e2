-- ===== src/Lib.antt =====
-- A model of Hub Sync, the program that keeps a folder of files in step between devices through
-- hubs, and theorems about it.
--
-- The program has a client core (crates/client-core), which a desktop client and a web client run
-- on, and a hub (crates/hub-api), which serves the files of a CouchDB database over HTTP. A
-- client records local edits in a durable queue, pushes the queue to the first hub that answers,
-- and pulls the changes of that hub since a stored checkpoint.
--
-- What models what:
-- - Protocol: the wire types (crates/protocol-types/src/types.rs), the content of a file
--   (crates/client-core/src/hub.rs) and the errors of the HTTP client
--   (crates/common/src/http_client.rs).
-- - Store: the storage traits MetaStore and FileStore (crates/client-core/src/store.rs) as
--   records of operations, with their laws; Store/Memory is MemStore, which fills them.
-- - Engine: SyncEngine (crates/client-core/src/engine.rs). Engine/Types has its data,
--   Engine/Queue the queue of unpushed changes and the stored metadata, Engine/Pull, Engine/Push
--   and Engine/Record the operations. The other files below Engine hold the proofs, named for
--   what they prove.
-- - Http: what the clients use of the `reqwest` and `url` packages, as a record of parameters,
--   Web; Http/Client is the shared HTTP client (crates/common/src/http_client.rs).
-- - Env: the reading of environment variables (crates/common/src/env.rs); Env/HubConfig and
--   Env/DesktopConfig are the configurations (crates/hub-api/src/config.rs,
--   crates/client-desktop/src/config.rs).
-- - Hub: the client of one hub (crates/client-core/src/hub.rs), which fills the interface that
--   the engine takes.
-- - Couch: the interface of the hub's database client and the packages that the hub uses, as one
--   record of parameters, Backend; Couch/Client is that client (crates/hub-api/src/couch.rs) over
--   Web, which fills the interface, and Couch/Leaves reads the answers with several revisions.
-- - Diff3: the merge and the common ancestor of two histories (crates/hub-api/src/diff3.rs).
-- - Resolver: the conflict resolver (crates/hub-api/src/resolver.rs). Resolver/Planning decides,
--   Resolver/Apply writes, Resolver/Resolve has the rounds; the others hold proofs.
-- - Routes: the routes of the hub (crates/hub-api/src/routes), Routes/Push for POST /changes with
--   its hash in Routes/Hash, Routes/Changes for GET /changes, Routes/File for GET /file/{path},
--   Routes/Router for the table of the routes and the check of the token
--   (crates/hub-api/src/auth.rs); crates/hub-api/src/error.rs.
-- - Notify: the clients of the notification services (crates/hub-api/src/notify.rs).
-- - Watcher: a round of the change watcher of the hub (crates/hub-api/src/watcher.rs), and in
--   Watcher/Health one of the health check of the replications.
-- - Desktop (crates/client-desktop/src): Desktop/Files is the file system, a parameter with laws,
--   Desktop/FsStore has the two stores over it (fs_store.rs), Desktop/Scan and Desktop/Reconcile
--   the reconciliation of the engine with the directory (reconcile.rs), Desktop/Notifier the
--   suppression of repeated messages (notifier.rs) and Desktop/Poll the long-poll loop (poll.rs).
-- - Browser/Opfs: the stores of the web client (crates/client-web/src/opfs.rs).
-- - EndToEnd: the push of the engine together with the push route of the hub.
-- - Base: results, actions with a state, lists, texts and integers.
--
-- A text is the list of its UTF-8 bytes, and so is a byte string. An async operation is a
-- function from the state to a result and the next state, and keeps the effects that it had
-- before it failed; a panic is a third kind of result. The engine's state is a World: the two
-- stores, the network and the user interface, each of a type that the Platform gives. The stores,
-- the `serde_json` and `base64` encodings and the requests to a hub are parameters of the engine:
-- IsPlatform says what is relied on, which is that a store operation is atomic and that what was
-- encoded can be decoded. Nothing is assumed of a hub, and nothing of the database behind a hub.
-- The operations of one device run one after another; the engine takes no lock.
--
-- The loops run over a list or a fixed number of rounds, and need no fuel. One does not: the
-- search for a free name of a conflict copy (conflict_copy_path) tries names until one is free,
-- so it takes the number of names to try; it is enough that this is more than the number of names
-- taken, and the model panics where the program would search on.
--
-- Two more loops take fuel that is given: `trim` takes the length of the text, which bounds the
-- number of spaces, and a number is written with as many digits as its value and one more.
--
-- A path of the file system is the list of its components, so the stores of the desktop client
-- are atomic maps only at paths in normal form; the laws of a file system are those of `rename`,
-- which replaces a file at once, and of `write`, which may fail half way. A scan of the directory
-- sees one tree, and the files that it has found are visited in the order of the scan.
--
-- Not modelled: of crates/client-desktop the start-up, the main loop and the file watcher, of
-- crates/client-web the bindings to the browser (lib.rs), of the hub the start-up and the CORS
-- layer, all of them glue around packages; the pauses between the rounds of the background tasks.
-- Two operations that overlap, on one device or in one hub, are not modelled.
pub mod Base
pub mod Protocol
pub mod Store
pub mod Engine
pub mod Http
pub mod Env
pub mod Hub
pub mod Couch
pub mod Diff3
pub mod Resolver
pub mod Routes
pub mod Notify
pub mod Watcher
pub mod Desktop
pub mod Browser
pub mod EndToEnd
mod Tests
