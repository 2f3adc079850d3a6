-- ===== src/Manager/Calls.antt =====
-- The methods of `ChatManager` in src/manager.rs that ask the actor: each sends a message with a
-- oneshot sender and awaits the answer. A channel that is closed gives the text of its error.
pub mod Answers
mod Examples
use tryst_core_portfolio.Prelude.{
  ℕ, Bool, true, List, [], ◌∷◌, Option, none, some, Result, ok, err, ◌>>=◌, map_err,
}
use Prim.Native.String.{String, ◌++◌ as string_append}
use tryst_core_portfolio.Failure.{LibError, GossipError, from_lib_error, internal}
use tryst_core_portfolio.Chat.Connection.{EndpointOrder}
use tryst_core_portfolio.Manager.Repository.{Repository}
use tryst_core_portfolio.Manager.Actor.{
  Answer, added, listed, subscribed, Manager, single, all, handle_outgoing_message,
  handle_subscription,
}

-- The way of a request and its answer, with the texts of the two errors of channels.
unfoldable pub ask :
    {A : Type 0}
    → String
    → String
    → Result (Unit {0}) String
    → Result (Result A LibError) String
    → Result A GossipError
unfolding from_lib_error
ask send_text receive_text sent received = do
  _ ← map_err (λ e. internal (string_append send_text e)) sent
  answer ← map_err (λ e. internal (string_append receive_text e)) received
  map_err from_lib_error answer

-- `subscribe`.
unfoldable pub subscribe :
    Result (Unit {0}) String
    → Result (Result (Unit {0}) LibError) String
    → Result (Unit {0}) GossipError
unfolding ask
subscribe =
    ask "ChatManager: Failed to send subscribe message. Channel closed. Err: "
      "ChatManager: Failed to receive subscribe result. Channel closed. Err: "

-- `send_message`.
unfoldable pub send_message :
    {Message : Type 0}
    → Result (Unit {0}) String
    → Result (Result Message LibError) String
    → Result Message GossipError
unfolding ask
send_message =
    ask "ChatManager: Failed to send InMessage::Single. Channel closed. Err: "
      "ChatManager: Failed to receive send_message result. Channel closed. Err: "

-- `get_all_messages`.
unfoldable pub get_all_messages :
    {Message : Type 0}
    → Result (Unit {0}) String
    → Result (Result (List Message) LibError) String
    → Result (List Message) GossipError
unfolding ask
get_all_messages =
    ask "ChatManager: Failed to send InMessage::All. Channel closed. Err: "
      "ChatManager: Failed to receive all messages result. Channel closed. Err: "

module _ (EndpointId : Type 0) (repo : Repository) ⦃order : EndpointOrder EndpointId⦄
    (is_open : ℕ → Bool) (gone : String) where
  -- What the oneshot receiver of a request gets: the newest answer, if it is of the request's kind;
  -- `gone` is the error's text where the sender is dropped.
  abbrev pub message_answer :
      List (Answer repo.Message) → Result (Result repo.Message LibError) String
  message_answer (added _ result ∷ _) = ok result
  message_answer _ = err gone

  abbrev pub list_answer :
      List (Answer repo.Message) → Result (Result (List repo.Message) LibError) String
  list_answer (listed _ result ∷ _) = ok result
  list_answer _ = err gone

  -- `send_message`, with the turn that the actor takes for it.
  unfoldable pub send_message_to :
      ℕ
      → repo.Content
      → Manager EndpointId repo
      → Result repo.Message GossipError × Manager EndpointId repo
  unfolding send_message
  send_message_to tx content m =
      let (m', flow) =
        handle_outgoing_message EndpointId repo is_open (some (single content tx true)) m in
      (send_message (ok tt) (message_answer m'.answers), m')

  -- `get_all_messages`, with the turn that the actor takes for it.
  unfoldable pub get_all_messages_from :
      ℕ → Manager EndpointId repo → Result (List repo.Message) GossipError × Manager EndpointId repo
  unfolding get_all_messages
  get_all_messages_from tx m =
      let (m', flow) = handle_outgoing_message EndpointId repo is_open (some (all tx true)) m in
      (get_all_messages (ok tt) (list_answer m'.answers), m')
