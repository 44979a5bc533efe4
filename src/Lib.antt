-- ===== src/Lib.antt =====
-- Sproutboat Community runs small HTTP services ("sprouts"), compiled to native binaries, on one
-- machine. The control plane (apps/control) keeps accounts, projects and deployments in a SQLite
-- database and answers the API. The edge (services/edge) takes the public requests, serves what it
-- may from its cache and passes the rest to a sprout. The supervisor (services/supervisor) starts,
-- reuses and stops the sprouts' processes, each with the broker that holds its bindings, and
-- screens the SQL that a sprout sends to its database. Control and edge meet in the files of an
-- artifact and in the database; the edge calls the supervisor's pool in its own process.
--
-- The files and the code they model:
--   Base                   what the modules share; Base/Dict is JavaScript's `Map` in insertion
--                          order, Base/Bag its `Set`, Base/Codes a text as its code units,
--                          Base/Split the string functions `split`, `trim`, `startsWith`,
--                          Base/Order and Base/Ranking sorting, Base/Json what JSON.parse returns
--   Supervisor/Pool        services/supervisor/src/run.ts, class SproutPool and the state of
--                          SproutServer: State (heap of servers, map, ports), Key (runtimeKey),
--                          Ports (#freePort), Endpoint (endpoint, #endpointOnce), Timed (timed
--                          wakes), Lifecycle (touch, dispose, evictIdle, #reconcileTimed, stats)
--   Supervisor/Credentials registerBindingCredential and verifyBindingCall of the same file
--   Supervisor/BrokerArgs  brokerArgs of the same file
--   Supervisor/Listeners   services/supervisor/src/listener-owner.ts: who listens on a port
--   Supervisor/SqliteGuard services/supervisor/src/sqlite-guard.ts: the scanner `statements` and
--                          `screenSql`
--   Edge/Cache             services/edge/src/cache.ts: EdgeCache and cacheRequestEligible
--   Edge/WebSocket         services/edge/src/websocket.ts: the handshake and the relay
--   Control/Limits         apps/control/src/limits.ts: rateHit and the guards; Limits/Address is
--                          clientIp, Limits/Certificates is tlsIssuanceAllowed
--   Control/CliAuthorization  apps/control/src/cli-authorization.ts: the device authorization
--   Control/Store          apps/control/src/store.ts: the tables; Store/Deployments (versions,
--                          projects, bans), Store/Domains (claims, secrets), Store/Queries,
--                          Store/Resources, Store/Routes (routes.json), Store/Artifacts
--                          (collection, sweeps); Store/Releases is what versions promise
--   Control/Deploys        apps/control/src/deployments.ts, runDeploy; Deploys/Uploads its guards
--   Control/Domains        apps/control/src/domains.ts: adding, verifying and deleting a domain
--   Control/Artifact       apps/control/src/artifact.ts: the check of bindings.json and its reading
--   Control/Secrets        apps/control/src/secrets.ts: setting and removing a secret
--   Control/EventTypes     apps/control/src/event-types.ts, and `scrub` of events.ts
--   Control/Events         apps/control/src/events.ts: recording, pruning and listing
--   Control/Webhooks       apps/control/src/webhooks.ts: the registry, Webhooks/Queue the queue,
--                          Webhooks/Sending the attempts
-- Beside a component stand the modules of its theorems, named for what they prove, and its Tests.
--
-- State and operations. A class or a module's variables are a record, a method is a function from
-- the record to the record and its result. An asynchronous function is cut where it waits: each
-- part is a function of its own, and the step relation (`Step`, `Reach`) of its component lets any
-- other part run in between. A table of SQLite is a map from its primary key, in rowid order, and
-- an ORDER BY is the insertion sort that a stable sort of those rows is. A mutable object that two
-- places share, the server of a sprout, lives in a heap. What fails returns a value that says so.
--
-- Numbers are natural numbers: clocks are milliseconds, and a difference that JavaScript may make
-- negative is only compared with a positive bound. No counter comes near 2 ^ 53. Loops are
-- recursion on the list they go through: the search for a port goes through the range's ports, the
-- retries of a delivery through its occasions. Only the walk over child processes has fuel, and an
-- edge between processes costs one unit.
--
-- Arguments stand for what is not in the source: the clock, random codes and ids, the hash and the
-- decryption, `toLowerCase` beyond ASCII, `Number` of a prefix length, the answer of the operating
-- system whether a port can be bound, the contents of /proc, the answers of TXT lookups, and what a
-- spawned process or the egress service does.
--
-- Not modelled: process spawning, files, sockets and HTTP themselves; the migrations of the database
-- and the rest of the control plane (the other HTTP handlers, backups, logs, live tail, the storage
-- products, the authentication library); the edge's routing; the dashboard (apps/web); the Rust twins
-- services/edge-rs and services/egress-rs; the tools, the tests and the deployment files.
pub mod Base
pub mod Control
pub mod Edge
pub mod Supervisor
