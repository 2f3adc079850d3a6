-- ===== src/Persistence/Sync/Quiet.antt =====
-- The three answers of `receive_sync_message` in src/persistence.rs.
use tryst_core_portfolio.Prelude.{
  Bool, true, false, List, Option, none, some, ◌≡◌, ◌≢◌, ◌⊎◌, ok, arith,
}
use tryst_core_portfolio.Persistence.Snapshots.{Crdt, Db, persist_chat}
use tryst_core_portfolio.Persistence.Sync.{
  Documents, ChatRepository, set_synced, generate_sync_message, receive_sync_message,
}

module _ {Key Doc Heads State Msg Message Content ListId : Type 0} (crdt : Crdt Doc Heads)
    (docs : Documents Doc State Msg Message Content ListId) where
  -- The document and the state of the sync that a message leaves, or the empty message.
  abbrev pub taken : Option Msg → ChatRepository Key Doc Heads State → Doc × State
  taken none r = (r.stored.doc, r.sync_state)
  taken (some msg) r = (
    (docs.receive msg r.stored.doc r.sync_state).1,
    (docs.receive msg r.stored.doc r.sync_state).2,
  )

  -- Where `receive_sync_message` succeeds, it keeps the document that it has taken the message into,
  -- and has asked that document for what it has to send to the peer. With nothing to send, it answers
  -- nothing to an empty message and an empty message to a message, and the chat is in sync; with
  -- something to send, it answers with that, and the chat is not in sync.
  pub receive_sync_message_lem :
      (refused : Bool) (in_msg : Option Msg) (r after : ChatRepository Key Doc Heads State)
      (db db' : Db Key) (msgs : List Message) (action : Option (Option Msg))
      → receive_sync_message crdt docs refused in_msg r db ≡ (ok (msgs, action), after, db')
      → (out : Option Msg) × (docs.generate (taken in_msg r).0 (taken in_msg r).1
          ≡ (out, after.sync_state))
        × (after.stored.doc ≡ (taken in_msg r).0)
        × (((out ≡ none) × (in_msg ≡ none) × (action ≡ none) × (after.synced ≡ true))
            ⊎ ((out ≡ none) × (in_msg ≢ none) × (action ≡ some none) × (after.synced ≡ true))
            ⊎ ((m : Msg) × (out ≡ some m) × (action ≡ some (some m)) × (after.synced ≡ false)))
  unfolding receive_sync_message generate_sync_message set_synced persist_chat
  receive_sync_message_lem refused in_msg r after db db' msgs action h =
      let out = (docs.generate (taken in_msg r).0 (taken in_msg r).1).0 in
      (out, ground arith, ground arith, ground arith)
