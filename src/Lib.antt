-- ===== src/Lib.antt =====
-- Wasmatrix: a verification library for the Wasm orchestrator of this repository.
--
-- The program starts, stops and watches Wasm instances on nodes. The crate `wasmatrix-core` has the
-- shared data types and the registries of capabilities; the control plane keeps the state of all
-- instances; on each node an agent runs them and decides when a crashed one is started again; clients'
-- capability calls pass the permission enforcer. The node routing of the control plane chooses a node
-- for each start and sends later requests to the node of the instance. The two sides talk in the
-- messages of the protocol, which are converted to and from their types on the wire.
--
-- Files and what they model (paths from the repository's root):
--   Prelude, HashMap   Rust's `Result`, iterators and `String`, and `std::collections::HashMap`
--   Core               crates/wasmatrix-core/src: Types, Events and Registry are lib.rs, Capability is
--                      capability.rs, Isolation is isolation.rs, Statelessness is statelessness.rs;
--                      Wasm is the magic bytes check that several crates repeat
--   ControlPlane       crates/wasmatrix-control-plane/src/lib.rs (`struct ControlPlane`)
--   Agent              crates/wasmatrix-agent/src: in lib.rs, Restart is the restart policy and Node the
--                      agent that runs the instances, over a wasmtime engine that is a parameter;
--                      Reporting is features/status_reporting, and Server and Invocation are server.rs
--   Proto              crates/wasmatrix-proto: Protocol and CoreTypes are src/protocol.rs, V1 the messages
--                      of proto/wasmatrix.proto, Conversion src/conversion.rs
--   Shared             crates/wasmatrix-control-plane/src/shared/error.rs
--   NodeRouting        crates/wasmatrix-control-plane/src/features/node_routing: Repository is repo/mod.rs,
--                      Etcd repo/etcd.rs, Controller controller/mod.rs, and Selection, Service, Requests
--                      and Recovery are service/mod.rs, over a gRPC client that is a parameter
--   Instances          crates/wasmatrix-control-plane/src/features/instance_management: Repository and
--                      Memory are repo/mod.rs, Service is service/mod.rs and controller/mod.rs; Account
--                      and Agreement compare them with a specification and with ControlPlane
--   Providers          crates/wasmatrix-providers/src: Kv is kv_provider.rs, Messaging, Http and Lifecycle are
--                      features/messaging_provider, http_provider and provider_lifecycle, over the
--                      interfaces of serde_json (Json) and of an HTTP client; Checks compares their
--                      permission checks with the core's
--   Runtime            crates/wasmatrix-runtime/src: capabilities.rs and runtime.rs
--   Network            the routing's client over the agents' servers: Queries is a query after a start,
--                      Recoveries the recovery of a node
--   Server             crates/wasmatrix-control-plane/src/server.rs, the handlers over both
--
-- How state corresponds to the code: a struct is a record with the source's fields, an enum a data type
-- with the source's variants in snake case, and a method that changes `self` returns its result beside
-- the new state. A function has the source's name, unless a comment above it says otherwise. A time is
-- a number; `Utc::now()`, `Instant::now()` and `Uuid::new_v4()` are arguments, as are the functions
-- of other crates (the hash of `md5`). `format!` keeps its whole text. Log lines are left out. A lock
-- is taken as always granted and never poisoned, so the methods run one after another.
--
-- No recursion needs fuel here: every loop of the modelled code runs over a list. Counters of the type
-- `u32` carry their bounds where they are modelled.
--
-- Not modelled: the gRPC transport, the process entry points, the timer of the agent's heartbeats, the
-- prometheus metrics and the wrappers of other libraries (reqwest, etcd), which are input and output.
pub mod Prelude
pub mod HashMap
pub mod Core
pub mod ControlPlane
pub mod Agent
pub mod Proto
pub mod Shared
pub mod NodeRouting
pub mod Providers
pub mod Runtime
pub mod Network
pub mod Server
pub mod Instances
