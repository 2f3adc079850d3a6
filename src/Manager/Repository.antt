-- ===== src/Manager/Repository.antt =====
-- What the actor of src/manager.rs uses of `ChatRepository` (src/persistence.rs) and of automerge's
-- messages.
use tryst_core_portfolio.Prelude.{ℕ, Bool, List, Option, Result}
use tryst_core_portfolio.Failure.{LibError}

pub record Repository : Type 1 where
  pub Doc : Type 0
  pub Content : Type 0
  pub Message : Type 0
  pub SyncMsg : Type 0
  pub generate_sync_message : Doc → Option SyncMsg × Doc
  pub receive_sync_message :
      Option SyncMsg → Doc → Result (List Message × Option (Option SyncMsg)) LibError × Doc
  pub add_message : Content → Doc → Result (Message × Option SyncMsg) LibError × Doc
  pub get_all_messages : Doc → Result (List Message) LibError
  pub reset_doc_state_to_persisted : Doc → Result (Unit {0}) LibError × Doc
  pub reset_sync_state : Doc → Doc
  -- The value of the watch channel that `subscribe_to_sync_status` hands out.
  pub sync_status : Doc → Bool
  -- `sync::Message::encode` and `decode`.
  pub encode : SyncMsg → List ℕ
  pub decode : List ℕ → Option SyncMsg
