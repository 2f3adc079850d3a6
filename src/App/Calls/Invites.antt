-- ===== src/App/Calls/Invites.antt =====
-- An invite of src/app.rs from its creation to the chat that it opens.
use tryst_core_portfolio.Prelude.{
  ℕ, Bool, List, Option, none, some, ok, err, ◌≡◌, map_err, ◌⊎◌, inl, inr, arith,
}
use Prim.Native.String.{String}
use tryst_core_portfolio.Failure.{LibError, from_lib_error}
use tryst_core_portfolio.Tryst.Invite.{create_invite_str, receive-create}
use tryst_core_portfolio.App.{
  ChatId, AppActor, get, handle_chat_manager, handle_actor_request, chat_manager,
}
use tryst_core_portfolio.App.Managers.{handle_chat_manager_lem}
use tryst_core_portfolio.App.Calls.{
  sealed, Meets, create_tryst_invite, done, ask_chat_manager, receive_tryst_invite,
}

module _ {EndpointId : Type 0} (text_of : EndpointId → List ℕ)
    (from_str : List ℕ → Option EndpointId) (dec : Discrete EndpointId) (is_open : ℕ → Bool)
    (parse_error : List ℕ → String) where
  create_lem :
      (inviter recipient : EndpointId)
      → from_str (text_of recipient) ≡ some recipient
      → create_tryst_invite text_of from_str inviter (sealed (text_of recipient))
        ≡ ok (create_invite_str text_of from_str inviter)
  unfolding create_tryst_invite
  create_lem inviter recipient s = ground arith

  receive_lem :
      (inviter : EndpointId) (meets : Meets EndpointId) (a : AppActor EndpointId)
      → from_str (text_of inviter) ≡ some inviter
      → receive_tryst_invite text_of from_str dec is_open parse_error meets
          (create_invite_str text_of from_str inviter)
          a
        ≡ (
          done (
              map_err from_lib_error
                (handle_chat_manager dec is_open a.endpoint_id meets.opened meets.others
                  (record { my_id = a.secret_key_public; remote_id = inviter })
                  none
                  a.registry).1),
          handle_actor_request dec is_open meets.respond_to inviter meets.opened meets.others a,
        )
  unfolding receive_tryst_invite ask_chat_manager chat_manager
  receive_lem inviter meets a r = ground (arith, receive-create text_of from_str inviter r)

  -- If the texts of the inviting peer's id and of the recipient's read back, then the invite is
  -- created, and a peer that receives it gets an answer of its running actor: either the chat with
  -- the inviting peer has a manager afterwards, or it has none yet, and the call reports why the
  -- chat cannot be opened.
  pub receive-create_tryst_invite :
      (inviter recipient : EndpointId)
      → from_str (text_of inviter) ≡ some inviter
      → from_str (text_of recipient) ≡ some recipient
      → (meets : Meets EndpointId) (a : AppActor EndpointId)
      → (invite : List ℕ) × (create_tryst_invite text_of from_str inviter
            (sealed (text_of recipient))
          ≡ ok invite)
        × (((receive_tryst_invite text_of from_str dec is_open parse_error meets invite a).0
                ≡ ok tt)
              × ((i : ℕ) × (get dec
                      (record { my_id = a.secret_key_public; remote_id = inviter })
                      (receive_tryst_invite text_of from_str dec is_open parse_error meets invite
                        a).1.registry.chat_managers
                    ≡ some i))
            ⊎ (get dec
                  (record { my_id = a.secret_key_public; remote_id = inviter })
                  a.registry.chat_managers
                ≡ none)
              × ((e : LibError) × (meets.opened ≡ err e)
                  × ((receive_tryst_invite text_of from_str dec is_open parse_error meets invite
                        a).0
                      ≡ err (from_lib_error e))))
  unfolding handle_actor_request
  receive-create_tryst_invite inviter recipient r s meets a =
      let k : ChatId EndpointId = record { my_id = a.secret_key_public; remote_id = inviter } in
      let q = receive_lem inviter meets a r in
      (
        create_invite_str text_of from_str inviter,
        create_lem inviter recipient s,
        elim (handle_chat_manager_lem dec is_open a.endpoint_id meets.opened meets.others k none
            a.registry) [
              | inl (none_yet, (e, refused, h)) ↦ inr (none_yet, (e, refused, ground (arith, q)))
              | inr (i, got, found) ↦ inl (ground (arith, q), (i, ground (arith, q)))
            ],
      )
