-- ===== src/Manager/Storage.antt =====
-- The document of the actor in src/manager.rs as src/persistence.rs makes it: the interface
-- `Manager.Repository`, filled with the models of its operations.
--
-- automerge's operations on a document are `Automerge`, its sync protocol is `Syncing`, and `error_text`
-- gives the texts of errors. No other connection writes to the tables here. `refused` says at what time
-- the database refuses a row of the log, and `faults` what else it refuses; the time is the number of
-- operations before.
pub mod Tables
pub mod Reports
mod Examples
use tryst_core_portfolio.Prelude.{Text, ℕ, suc, Bool, List, Option, Result, map_err, ◌≡◌}
use Prim.Native.String.{String}
use tryst_core_portfolio.Failure.{LibError}
use tryst_core_portfolio.Persistence.Snapshots.{Crdt, Db, Faults, StoreError}
use tryst_core_portfolio.Persistence.Schema.{
  ChatMessage, ChatMessageContent, Automerge, transact_message,
}
use tryst_core_portfolio.Persistence.Messages.{get_all_messages}
use tryst_core_portfolio.Persistence.Sync
use tryst_core_portfolio.Persistence.Sync.{Prop, Documents, ChatRepository, Outcome}
use tryst_core_portfolio.Persistence.Sync.Reset.{reset_from_tables}
use tryst_core_portfolio.Manager.Repository.{Repository}

-- `From<sqlx::Error>` and the constructors of `LibError` in src/persistence.rs.
abbrev pub to_lib_error : (StoreError → String) → StoreError → LibError
to_lib_error error_text StoreError.sqlx = LibError.sqlx (error_text StoreError.sqlx)
to_lib_error error_text StoreError.automerge = LibError.automerge (error_text StoreError.automerge)
to_lib_error error_text StoreError.unexpected =
    LibError.unexpected (error_text StoreError.unexpected)

-- A new message, with the id and the time that it gets.
pub record Draft : Type 0 where
  pub new_msg_id : Text
  pub now : ℕ
  pub content : ChatMessageContent

-- automerge's sync protocol.
pub record Syncing (Doc State Msg : Type 0) : Type 0 where
  pub new_state : State
  pub generate : Doc → State → Option Msg × State
  pub receive : Msg → Doc → State → Result (List (List Prop)) StoreError × Doc × State
  pub encode : Msg → List ℕ
  pub decode : List ℕ → Option Msg

module _ {Doc ObjId State Msg : Type 0} (am : Automerge Doc ObjId)
    (hydrate_prop : ObjId → ℕ → Doc → Result ChatMessage StoreError)
    (syncing : Syncing Doc State Msg) (my_peer_id : Text) where
  -- What the repository uses of a chat document.
  abbrev pub documents : Documents Doc State Msg ChatMessage Draft ObjId
  documents = record {
    new_state = syncing.new_state;
    generate = syncing.generate;
    receive = syncing.receive;
    append_message =
        λ draft doc. transact_message am draft.new_msg_id my_peer_id draft.now draft.content doc;
    get_list = am.get;
    hydrate = hydrate_prop;
    created_at = λ m. m.created_at;
  }

  module _ {Key Heads : Type 0} (dec : Discrete Key) (crdt : Crdt Doc Heads)
      (init : Key → Option Doc) (error_text : StoreError → String) where
    -- The repository, the tables, and what the database refuses.
    pub record World : Type 0 where
      pub repo : ChatRepository Key Doc Heads State
      pub db : Db Key
      pub refused : ℕ → Bool
      pub faults : ℕ → Faults
      pub time : ℕ

    abbrev pub finish :
        {A : Type 0} → Outcome Key Doc Heads State A → World → Result A LibError × World
    finish (result, r, db) w = (
      map_err (to_lib_error error_text) result,
      record w { repo = r; db = db; time = suc w.time },
    )

    abbrev pub repository : Repository
    repository = record {
      Doc = World;
      Content = Draft;
      Message = ChatMessage;
      SyncMsg = Msg;
      generate_sync_message = λ w.
          (let (msg, r) = Sync.generate_sync_message documents w.repo in
            (msg, record w { repo = r }));
      receive_sync_message = λ msg w.
          finish (Sync.receive_sync_message crdt documents (w.refused w.time) msg w.repo w.db) w;
      add_message = λ draft w.
          finish (Sync.add_message crdt documents (w.refused w.time) draft w.repo w.db) w;
      get_all_messages = λ w.
          map_err (to_lib_error error_text) (get_all_messages am hydrate_prop w.repo.stored.doc);
      reset_doc_state_to_persisted =
          λ w. finish (reset_from_tables dec crdt init documents (w.faults w.time) w.repo w.db) w;
      reset_sync_state = λ w. record w { repo = Sync.reset_sync_state documents w.repo };
      sync_status = λ w. w.repo.synced;
      encode = syncing.encode;
      decode = syncing.decode;
    }
