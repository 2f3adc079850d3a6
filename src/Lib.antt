-- ===== src/Lib.antt =====
-- A verification library of the tryst core (Rust, src/): a peer-to-peer chat over iroh, whose
-- documents are automerge documents in SQLite.
--
-- The parts and how they interact. The application (src/app.rs) owns an actor with one chat manager
-- for each peer. A manager (src/manager.rs) owns the repository of its chat (src/persistence.rs) and
-- a connection (src/protocols/chat.rs), runs the sync protocol between the two, and answers its
-- callers. A connection holds at most one handle; handles are made by the protocol actor
-- (src/protocols/chat/protocol_handler.rs), which dials and accepts, and whose tasks read and write
-- frames (src/protocols/chat/utils.rs). The tryst protocol (src/protocols/tryst/) stores trust
-- relations; the repository withholds its logic and keeps stubs.
--
-- Which file models which part:
--   Failure: LibError, GossipError and the map between them, src/error.rs.
--   Chat.Message: the wire messages, src/protocols/chat/message.rs.
--   Chat.Framing: write_message, read_message, read_lp and the loops that call them. Its children:
--     Reading, Stream, Limits (proofs).
--   Chat.CloseReason: the codes of a close, src/protocols/chat/protocol_handler.rs.
--   Chat.Connection: ChatConnection and its methods, one function each. Tasks adds the methods that
--     await, as steps of a session with its spawned tasks. Tasks.Invariant, Tasks.Leases,
--     Tasks.Recovery, Glare and Stale hold the proofs.
--   Chat.Protocol: the handshake of process_established_connection. Protocol.Actor: the request
--     loop, dial_endpoint, accept_conn and the task that watches a connection; Protocol.Router: what
--     iroh's router calls.
--   Manager: Repository is the interface that the manager uses, Actor its handlers, Loop its
--     select loop and its task.
--   Persistence.Snapshots: persist_chat and get_persisted_doc_state on the tables chats and chat_log.
--   Persistence.Sync: the operations of ChatRepository that change the document; Sync.Reset: those
--     that read it from the tables. Kept, Quiet and Durable hold the proofs.
--   Persistence.Schema: the layout of a document, src/persistence/schema.rs.
--   Persistence.Messages: get_messages and get_all_messages. Persistence.ChatList:
--     list_chats_remote_peers_ids.
--   Manager.Calls: the methods of ChatManager that ask the actor.
--   Manager.Storage: the manager's Repository, made of the operations of Persistence.
--   Manager.Exchange: two managers at the ends of one connection, with the messages on the way, as a
--     step relation; Manager.Storage.Reports: the same with that repository.
--   App: the registry, handle_chat_manager, the actor's loop and the method chat_manager;
--     App.Names: the text of a chat's id; App.Keys: the texts of keys; App.Calls: the methods for
--     invites, peers and the shutdown; App.Startup: new_with_config, setup_db, the actor's task with its
--     cleanup, and NetworkEndpoint::start of src/network_endpoint.rs.
--   Tryst: StoredTryst and the ratchet; Rows: TrystRepository; Invite: InviteManager; Crypto and
--     Discovery: the stubs of crypto.rs and discovery.rs.
--   Log: the layer of src/log.rs, from the fields of a span to the calls on the logger; Log.Init:
--     init_logger.
--   Bench: Report is report_result of src/bench_utils.rs and run_worker of
--     src/bin/bench_orchestrator.rs, Bandwidth the loop wait_for_bandwidth_stabilization, Orchestrator
--     measure_connection_establishment, with Discovery (measure_dht_discovery) and Main (main and
--     measure_crypto); Workers: main of the two workers.
-- Files named Examples apply the theorems at concrete inputs. Prelude holds the shared notation.
--
-- How code becomes definitions. A method under a lock is a function from the state to the new state;
-- a method that awaits is cut at its awaits, and a list of events says which task takes the next
-- step, so a theorem about every list is one about every interleaving. What a select! delivers is an
-- argument. Calls on foreign objects (tokens, watch channels, subscribers, close calls) are logs in
-- the state. iroh, postcard, automerge, SQLite and the texts of ids are parameters; what the code
-- relies on in them are the records CodecLaws, CrdtLaws, DocumentLaws, TextLaws, IdTexts,
-- NumberTexts, ReadLaws and EndpointOrder.
--
-- Bounds and fuel. A UUID, a channel and a token are natural numbers. The loop of read_lp gets one
-- round more than the size of the frame: each round but the last reads a byte. The loop of
-- read_messages gets one round more than there are messages: each round but the last reads one. The
-- loop of get_persisted_doc_state gets two rounds: the second one meets the snapshot that made the
-- first one fail, as long as nobody deletes it in between, which this program never does. The u32 of a frame's length, the i64 of an epoch and the usize sum of an offset and
-- a limit keep their wrap-around.
--
-- Not modelled: what sqlx, iroh and tracing do when the start-up calls them, with the migrations of
-- the database; cryptography and discovery beyond the stubs that the repository publishes, which
-- withholds their logic; get_bandwidth_bytes on macOS, which reads the output of another program.
-- Whether the documents of two peers end up equal is not modelled: automerge's sync protocol is a
-- parameter.
mod Prelude
pub mod Failure
pub mod Chat
pub mod Manager
pub mod Persistence
pub mod App
pub mod Bench
pub mod Log
pub mod Tryst
