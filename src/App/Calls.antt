-- ===== src/App/Calls.antt =====
-- The calls of `Application` in src/app.rs that put the parts together: the invites, the list of peers
-- and the shutdown.
--
-- `text_of` and `from_str` are iroh's texts of endpoint ids, `parse_error` the error of a text that is
-- none. The actor is running: it takes up a request with its `respond_to`, the answer of the database
-- and what happens to the registry meanwhile.
pub mod Invites
mod Examples
use tryst_core_portfolio.Prelude.{
  ℕ, Bool, true, false, List, [], ◌∷◌, Option, none, some, Result, ok, err, ◌>>=◌, map, map_err,
}
use Prim.Native.String.{String}
use tryst_core_portfolio.Failure.{LibError, GossipError, from_lib_error, internal}
use tryst_core_portfolio.Chat.Connection.{EndpointOrder}
use tryst_core_portfolio.Persistence.Snapshots.{StoreError}
use tryst_core_portfolio.Persistence.ChatList.{list_chats_remote_peers_ids}
use tryst_core_portfolio.Tryst.Invite.{create_invite_str, receive_invite_str}
use tryst_core_portfolio.App.{
  ChatId, Registry, AppActor, handle_chat_manager, handle_actor_request, chat_manager,
}

-- `CreateInviteType`.
pub data CreateInviteType : Type 0 where
  sealed : List ℕ → CreateInviteType

-- What the actor meets while it handles a request.
pub record Meets (EndpointId : Type 0) : Type 0 where
  pub respond_to : ℕ
  pub opened : Result (Unit {0}) LibError
  pub others : Registry EndpointId → Registry EndpointId

abbrev pub done : Result ℕ GossipError → Result (Unit {0}) GossipError
done (err e) = err e
done (ok _) = ok tt

module _ {EndpointId : Type 0} (text_of : EndpointId → List ℕ)
    (from_str : List ℕ → Option EndpointId) where
  -- `create_tryst_invite`; the recipient's key must parse, and is not used.
  unfoldable pub create_tryst_invite : EndpointId → CreateInviteType → Result (List ℕ) GossipError
  unfolding create_invite_str
  create_tryst_invite public (sealed recipient_pk) = elim (from_str recipient_pk) [
    | none ↦ err (internal "Failed to parse PublicKey from provided string to create tryst invite.")
    | some _ ↦ ok (create_invite_str text_of from_str public)
  ]

  module _ (dec : Discrete EndpointId) (is_open : ℕ → Bool) (parse_error : List ℕ → String) where
    -- `chat_manager` with the actor that it asks.
    unfoldable pub ask_chat_manager :
        Meets EndpointId → List ℕ → AppActor EndpointId → Result ℕ GossipError × AppActor EndpointId
    unfolding handle_actor_request chat_manager
    ask_chat_manager meets remote_peer_id a = elim (from_str remote_peer_id) [
      | none ↦ (
        chat_manager {EndpointId = EndpointId} (err (parse_error remote_peer_id)) (ok tt)
            (λ _. none),
        a,
      )
      | some remote ↦ (
        chat_manager (ok remote) (ok tt) (λ r.
            some
              (handle_chat_manager dec is_open a.endpoint_id meets.opened meets.others
                (record { my_id = a.secret_key_public; remote_id = r }) none a.registry).1),
        handle_actor_request dec is_open meets.respond_to remote meets.opened meets.others a,
      )
    ]

    -- `receive_tryst_invite`.
    unfoldable pub receive_tryst_invite :
        Meets EndpointId
        → List ℕ
        → AppActor EndpointId
        → Result (Unit {0}) GossipError × AppActor EndpointId
    unfolding ask_chat_manager receive_invite_str from_lib_error
    receive_tryst_invite meets invite_str a =
        elim (receive_invite_str text_of from_str invite_str) [
          | err e ↦ (err (from_lib_error e), a)
          | ok sender_endpoint_id ↦
              let (result, a') = ask_chat_manager meets (text_of sender_endpoint_id) a in
              (done result, a')
        ]

  -- `all_remote_peers`, for the rows of the table of chats.
  unfoldable pub all_remote_peers :
      ⦃order : EndpointOrder EndpointId⦄
      → Discrete EndpointId
      → (StoreError → LibError)
      → (refused : Bool) → EndpointId
      → List (List ℕ)
      → Result (List (List ℕ)) GossipError
  unfolding list_chats_remote_peers_ids from_lib_error
  all_remote_peers dec lib_error refused my_id chat_ids = do
    peers ←
        map_err (λ e. from_lib_error (lib_error e))
          (list_chats_remote_peers_ids dec from_str refused (text_of my_id) chat_ids)
    ok (map text_of peers)

-- The application's handle on its actor's task.
pub record Handle : Type 0 where
  pub cancelled : Bool
  pub join_handle : Option ℕ
  pub awaited : List ℕ

-- `shutdown`; a lock that is poisoned gives no handle to wait for.
unfoldable pub shutdown : (poisoned : Bool) → Handle → Handle
shutdown true h = record h { cancelled = true }
shutdown false h = elim h.join_handle [
  | none ↦ record h { cancelled = true }
  | some task ↦ record h { cancelled = true; join_handle = none; awaited = task ∷ h.awaited }
]
