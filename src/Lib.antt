-- ===== src/Lib.antt =====
-- Agent Supervisor: the workspace aggregate of agsv-core, the protocol data of agsv-protocol and the
-- durable store of agsv-runtime.
--
-- The aggregate (crates/agsv-core/src/supervisor.rs) holds a workspace's actors, teams, requests,
-- runs, mailbox, pending handoffs and audit. Envelopes (crates/agsv-protocol/src/model.rs) come in
-- through `apply`, which validates, authorizes, plans recipients, runs the handler of the message
-- and records it; recipients answer through `acknowledge`; the control plane changes actors and
-- teams through the other methods. `transitions.rs` holds the state machines that they go by.
--
-- Protocol: `Ids` (ids.rs), `Validation` (validation.rs), `Status`, `Actor`, `Work`, `Message`,
-- `Kind`, `Payload`, `Envelope`, `Delivery` (model.rs), with the source's fields and variants.
-- Core: `Error` (error.rs), `Transitions` (transitions.rs); of supervisor.rs, `State` is the
-- aggregate, `Registry` activate_primary, create_team, set_team_status, set_actor_status and
-- heartbeat, `Teams` register_implementation and replace_implementation, `Context` the checks and
-- fences, `Recipients` and `Waivers` the delivery plan, `Coordination`, `Lifecycle`, `Review` and
-- `Handoff` the handlers, `Dispatch` apply_message, `Audit` and `Observe` the audit and the
-- counters, `Apply` apply, `Acknowledge` acknowledge and the inboxes, `Mailbox` retirement.
-- `Restore` reads actors, teams, requests, runs and pending handoffs back from a snapshot, without
-- the index in an error's path, and derives the counts.
-- `Frame`, `Links`, `Accept`, `Acknowledge.Receipt`, `Registry.Lease`,
-- `Registry.Fence`, `Transitions.Pairing` and `Transitions.Journey` hold proofs; `Examples` holds runs on a small workspace.
--
-- Runtime (crates/agsv-runtime/src): `Types` (types.rs), `Table` the SQL of the statements over lists
-- of rows; of store.rs, `Store` the tables and the shared checks, `Leases` the leases of the daemon
-- and the Primary, `Actors` registration, sessions and heartbeats, `Launch` the steps of a launch,
-- `Messages` authorization and sending, `Claims` claims, acknowledgements, retries and the sweep of
-- what expired, `Schema` the retries of opening, the versions and the texts of roles and states.
-- `Service` (service.rs) is the process around the store, over a `Host` of session backends.
-- `Steps` is the relation of the transactions that commit, by any processes with any clocks; the
-- other files hold proofs over it, and `Examples` and `HostExamples` runs. The aggregate does not call this
-- store: the two are separate users of leases and epochs.
--
-- A transaction of the store gives its value with the tables that it commits, or an error, after
-- which SQLite has rolled it back. An i64 is its distance from i64::MIN; `epoch + 1` wraps, as in
-- a release build, and the additions in SQL past the largest integer give a real, which the row is
-- not read as. A path is its text, or bytes that are not Unicode with their lossy text. Failures
-- of the disk and the lock are not modelled, except where opening retries them.
--
-- A method on `&mut self` is a function from a state to a result and a state (`Common.Exec`): what
-- was written before an error stays written. `Common.Returns` states a triple for such a method.
-- `BTreeMap` and `BTreeSet` are lists in ascending order (`Common.Maps`). A validated identifier, a
-- digest or an object id is its rank in the finite order of such texts, since the program only
-- compares them. Fences and counters are u64: an increment is checked against 2^64. No definition
-- needs fuel, since every loop goes over a list or counts the attempts that are left.
--
-- serde_json and sha2 are the parameter `Codec`: the length of an envelope's encoding and the
-- digests, with no assumption about them.
--
-- Not modelled: of supervisor.rs the restoring of deliveries and checkpoints, archives, and
-- the replay on restore; schema generation
-- (crates/agsv-protocol/src/schema.rs); of crates/agsv-runtime the SQL of the migrations and the
-- adapters; crates/agsv-control, agsv-session and agsv-cli, which run SQLite, git,
-- child processes and terminals around the aggregate.
pub mod Common
pub mod Protocol
pub mod Core
pub mod Examples
pub mod Runtime
