-- ===== src/Manager/Actor.antt =====
-- The handlers and the loop of the actor in src/manager.rs.
pub mod Sync
pub mod Documents
pub mod Outgoing
pub mod Reports
use tryst_core_portfolio.Prelude.{
  ℕ, Bool, true, false, List, [], ◌∷◌, Option, none, some, if◌then◌else◌, Result, ok, err,
}
use mathlib.Core.Option
use tryst_core_portfolio.Failure.{LibError}
use tryst_core_portfolio.Chat.Message.{SyncMessage, sync_message, ProtoMessage, sync}
use tryst_core_portfolio.Chat.Connection.{
  ChatConnectionHandle, ChatConnectionState, EndpointOrder, update_handle, close,
}
use tryst_core_portfolio.Chat.Connection.Tasks.{Session, send_message, reconnect}
use tryst_core_portfolio.Manager.Repository.{Repository}

-- `UniffiChatConnectionState`; the text of an id stands for the id.
pub data UniffiChatConnectionState : Type 0 where
  disconnected : UniffiChatConnectionState
  connected : ℕ → UniffiChatConnectionState
  reconnecting : UniffiChatConnectionState

abbrev pub to_uniffi : ChatConnectionState → UniffiChatConnectionState
to_uniffi ChatConnectionState.disconnected = UniffiChatConnectionState.disconnected
to_uniffi (ChatConnectionState.connected id) = UniffiChatConnectionState.connected id
to_uniffi ChatConnectionState.reconnecting = UniffiChatConnectionState.reconnecting

-- The calls on a subscriber, which is an identity.
pub data Call (Message : Type 0) : Type 0 where
  process_messages : ℕ → List Message → Call Message
  process_connection_state : ℕ → UniffiChatConnectionState → Call Message
  process_sync_status : ℕ → Bool → Call Message

-- The answers on the senders of requests, which are identities.
pub data Answer (Message : Type 0) : Type 0 where
  added : ℕ → Result Message LibError → Answer Message
  listed : ℕ → Result (List Message) LibError → Answer Message
  subscribed : ℕ → Answer Message

-- How a handler ends: the loop goes on, or returns `Ok` or an error.
pub data Flow : Type 0 where
  continues returns_ok returns_err : Flow

module _ (EndpointId : Type 0) (repo : Repository) where
  open repo use {
    Doc, Content, Message, SyncMsg, generate_sync_message, receive_sync_message, add_message,
    get_all_messages, reset_doc_state_to_persisted, reset_sync_state, sync_status, encode, decode,
  }

  pub record Manager : Type 0 where
    pub doc : Doc
    pub session : Session EndpointId
    pub msg_receiver : Option ℕ
    pub reset_doc_state : Bool
    pub calls : List (Call Message)
    pub answers : List (Answer Message)

  -- `handle_outgoing_sync_message`.
  unfoldable pub handle_outgoing_sync_message : (ℕ → Bool) → Option SyncMsg → Manager → Manager
  handle_outgoing_sync_message is_open msg m = record m {
    session = send_message is_open (sync (Option.map (λ s. sync_message (encode s)) msg)) m.session;
  }

  -- `generate_sync_message` of the document, and then its message goes out.
  unfoldable pub send_generated : (ℕ → Bool) → Manager → Manager
  unfolding handle_outgoing_sync_message
  send_generated is_open m =
      let (msg, doc') = generate_sync_message m.doc in
      handle_outgoing_sync_message is_open msg (record m { doc = doc' })

  -- A call on the subscriber, if there is one.
  unfoldable pub notify : (ℕ → Call Message) → Manager → Manager
  notify call m = elim m.msg_receiver [ none ↦ m | some r ↦ record m { calls = call r ∷ m.calls } ]

  -- `handle_connection_state_change`.
  unfoldable pub handle_connection_state_change :
      (ℕ → Bool) → ChatConnectionState → Manager → Manager
  unfolding send_generated notify
  handle_connection_state_change is_open new_state m =
      let told = notify (λ r. process_connection_state r (to_uniffi new_state)) m in
      elim new_state [
        | ChatConnectionState.connected _ ↦
            send_generated is_open (record told { doc = reset_sync_state told.doc })
        | _ ↦ told
      ]

  -- `handle_subscription`, for the subscriber and the sender of its answer.
  pub handle_subscription : Option (ℕ × ℕ) → Manager → Manager × Flow
  handle_subscription none m = (m, returns_err)
  handle_subscription (some (r, tx)) m = (
    record m {
      msg_receiver = some r;
      calls =
          process_connection_state r (to_uniffi m.session.conn.published)
          ∷ process_sync_status r (sync_status m.doc)
          ∷ m.calls;
      answers = subscribed tx ∷ m.answers;
    },
    continues,
  )

  -- The messages that a sync brought go to the subscriber, if there are any.
  unfoldable pub pass_chunks : List Message → Manager → Manager
  unfolding notify
  pass_chunks [] m = m
  pass_chunks (c ∷ cs) m = notify (λ r. process_messages r (c ∷ cs)) m

  unfoldable pub reply : (ℕ → Bool) → Option (Option SyncMsg) → Manager → Manager
  unfolding handle_outgoing_sync_message
  reply is_open none m = m
  reply is_open (some msg) m = handle_outgoing_sync_message is_open msg m

  -- After a failed sync: nothing if the document was reset since the last success, and else a reset
  -- and, where that works, a new sync message.
  unfoldable pub recover : (ℕ → Bool) → Bool → Manager → Manager
  unfolding send_generated
  recover is_open true m = m
  recover is_open false m =
      let (result, doc') = reset_doc_state_to_persisted m.doc in
      elim result [
        | ok _ ↦ send_generated is_open (record m { doc = doc'; reset_doc_state = true })
        | err _ ↦ record m { doc = doc' }
      ]

  unfoldable pub after_receive :
      (ℕ → Bool) → Result (List Message × Option (Option SyncMsg)) LibError → Manager → Manager
  unfolding pass_chunks reply recover
  after_receive is_open (ok (chunks, reply_action)) m =
      reply is_open reply_action (pass_chunks chunks (record m { reset_doc_state = false }))
  after_receive is_open (err e) m = recover is_open m.reset_doc_state m

  unfoldable pub receive_decoded : (ℕ → Bool) → Option SyncMsg → Manager → Manager
  unfolding after_receive
  receive_decoded is_open msg m =
      let (result, doc') = receive_sync_message msg m.doc in
      after_receive is_open result (record m { doc = doc' })

  -- `handle_incomming_message`: bytes that do not decode are dropped.
  unfoldable pub handle_incomming_message : (ℕ → Bool) → ProtoMessage → Manager → Manager
  unfolding receive_decoded
  handle_incomming_message is_open (sync none) m = receive_decoded is_open none m
  handle_incomming_message is_open (sync (some (sync_message bytes))) m = elim (decode bytes) [
    | none ↦ m
    | some msg ↦ receive_decoded is_open (some msg) m
  ]

  -- `InMessage`; the sender of an answer is an identity, and the flag says whether it is heard.
  pub data InMessage : Type 0 where
    single : Content → ℕ → Bool → InMessage
    all : ℕ → Bool → InMessage
    pass_accepted_conn_handle : ChatConnectionHandle EndpointId → ℕ → InMessage

  -- An answer on a sender: if nobody hears it, the handler returns an error.
  answer : Bool → Answer Message → Manager → Manager × Flow
  answer true a m = (record m { answers = a ∷ m.answers }, continues)
  answer false a m = (m, returns_err)

  single_result :
      (ℕ → Bool)
      → Result (Message × Option SyncMsg) LibError
      → Manager
      → Result Message LibError × Manager
  unfolding handle_outgoing_sync_message
  single_result is_open (ok (msg, sync_msg)) m =
      (ok msg, handle_outgoing_sync_message is_open sync_msg m)
  single_result is_open (err e) m = (err e, m)

  -- `handle_outgoing_message`.
  pub handle_outgoing_message :
      ⦃order : EndpointOrder EndpointId⦄ → (ℕ → Bool) → Option InMessage → Manager → Manager × Flow
  unfolding answer single_result
  handle_outgoing_message is_open none m = (m, returns_err)
  handle_outgoing_message is_open (some (single content tx heard)) m =
      let (added_msg, doc') = add_message content m.doc in
      let (result, m') = single_result is_open added_msg (record m { doc = doc' }) in
      answer heard (added tx result) m'
  handle_outgoing_message is_open (some (all tx heard)) m =
      answer heard (listed tx (get_all_messages m.doc)) m
  handle_outgoing_message is_open (some (pass_accepted_conn_handle h new_id)) m = (
    record m { session = record m.session { conn = update_handle h new_id m.session.conn } },
    continues,
  )
