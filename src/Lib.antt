-- ===== src/Lib.antt =====
-- agent-wake: the daemon agent_waked, which takes signed wake events over HTTP, routes them to the
-- agent sessions that are connected to its socket, and keeps what it cannot deliver.
--
-- The parts, by their paths in the repository:
--   daemon/src/agent_waked/store.py       Store: the SQLite tables of seen events, queued events and
--                                         dead letters. Store.State has the rows and the store,
--                                         Store.Queue enqueue_pending, claim_pending, delete_pending
--                                         and list_pending, Store.DeadLetters the dead-letter table,
--                                         Store.Prune prune, Store.Dedupe check_and_record_event.
--   daemon/src/agent_waked/addressing.py  Addressing: Legacy has derive_from_legacy, Tables the
--                                         accessors, Resolve routed_destinations, resolve,
--                                         out_of_band_principals and trigger_identity_for.
--   daemon/src/agent_waked/gating.py      Ingest.Signature (verify_signature, verify_signature_any)
--                                         and Ingest.Trigger (check_trigger_identity).
--   daemon/src/agent_waked/ingest.py      Ingest.RateLimit (SourceRateLimiter), Ingest.Window
--                                         (Dedupe without a store), Ingest.WakeEvent
--                                         (_build_wake_event) and Ingest.Endpoint (post_root, on the
--                                         state of Ingest.World).
--   daemon/src/agent_waked/router.py      Router: State has the subscribers, acks and counters,
--                                         Subscribe who serves a destination, Undeliverable the
--                                         delivery mode and the queue, Send one wake frame, Deliver
--                                         the fan-out and its status, Drain the queued events of a
--                                         new session, Acks the end of a wait.
--   daemon/src/agent_waked/outbox.py      Outbox: deliver with its attempts and dead letters, and
--                                         peer_identity; Outbox.Callback has the check of the callback.
--   daemon/src/agent_waked/delivery.py    Delivery: HumanDelivery.deliver over the channels of a
--                                         principal; Delivery.Channels has the loop, Delivery.Health
--                                         DeliveryHealth.
--   daemon/src/agent_waked/socket_server.py
--                                         Socket: the handshake, the heartbeat and the frames of a
--                                         connection; a round of the heartbeat is one step.
--   daemon/src/agent_waked/socket_server.py, proto.py
--                                         Socket.Frames reads the lines of a connection, and Proto has
--                                         validate_frame; Proto.Built the frames that the daemon sends.
--   daemon/src/agent_waked/config.py      Config: Load has load_config, Blocks the blocks that stand
--                                         alone, Senders, Channels and Tables the others;
--                                         Config.Listen resolve_listen of main.py.
--   daemon/src/agent_waked/wake_hmac.py   Signing: load_keys, sign_body and verify_body of the callbacks;
--                                         Signing.RoundTrip and Signing.Verified are proofs.
--   daemon/src/agent_waked/netguard.py    Netguard: the forbidden addresses and acheck_url.
--   daemon/src/agent_waked/cli/queue.py   Cli.Redrive: the redrive of a dead letter.
-- A configuration that Config loads is the one that Addressing reads. An event is checked by Ingest, resolved by Addressing, and given to Router.Deliver, which sends it
-- to the subscribers and puts the rest into Store.Queue; a new session drains that queue through
-- Router.Drain, and Router.Acks removes a row when its ack arrives. Replies leave through
-- Outbox, and alerts for people through Delivery, which Ingest.Endpoint only starts. Store.Fifo states
-- the contract of the queue, a list of messages for each destination, which the table implements. What
-- cannot be delivered becomes a dead letter, and Cli.Redrive tries it again.
--
-- Configurations and events are JSON values (Json); a dictionary is its entries in order. A table is
-- the list of its rows in order of their row id, and a dictionary of the router is an association
-- list. Times, lifetimes and delays are whole ticks of one clock, and the limiter counts units of a
-- token, so that the source's floats are whole. What the code reads from its surroundings is an
-- argument: each reading of the clock, new ULIDs, and for each await what the other tasks do to the
-- router in between (Await). SHA-256 and HMAC-SHA256 are parameters. Recursion is on lists and texts, and in the
-- outbox on the number of attempts left; the only fuel is that of decimal numerals, n + 1 rounds for
-- the number n.
--
-- Not modelled: opening and migrating the database, the HTTP server and the streams of the socket, the
-- encoding of JSON, channels and secrets, the commands other than redrive, the doctor, the adapters and
-- scripts, and log texts. A configuration error is told by the setting that it is about. The store's
-- operations hold its lock and are single steps; prune, which writes the dead letters of expired events
-- after its commit, is one step here too.
mod Prelude
mod Tests
pub mod Json
pub mod Store
pub mod Addressing
pub mod Ingest
pub mod Router
pub mod Outbox
pub mod Delivery
pub mod Signing
pub mod Socket
pub mod Cli
pub mod Proto
pub mod Url
pub mod Netguard
pub mod Config
