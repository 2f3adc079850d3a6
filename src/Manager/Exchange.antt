-- ===== src/Manager/Exchange.antt =====
-- Two managers of src/manager.rs at the two ends of one connection, and the messages between them.
--
-- The two directions of the connection are queues, oldest message first. A step is one turn of the
-- loop of one side: on a message of the peer, the oldest one, or on anything else. A run goes on while
-- both sides stay in their loops, keep the connection, and take the messages that come.
mod Queues
mod Moves
pub mod Invariant
use tryst_core_portfolio.Prelude.{
  ℕ, Bool, true, List, [], ◌∷◌, ◌++◌, ◌≡◌, Option, none, some, ok, length, drop,
}
use tryst_core_portfolio.Chat.Message.{SyncMessage, ProtoMessage, sync}
use tryst_core_portfolio.Chat.Connection.{EndpointOrder}
use tryst_core_portfolio.Chat.Connection.Tasks.{Session}
use tryst_core_portfolio.Manager.Repository.{Repository}
use tryst_core_portfolio.Manager.Actor.{Manager, Flow, continues}
use tryst_core_portfolio.Manager.Actor.Sync.{decoded}
use tryst_core_portfolio.Manager.Loop.{Branch, conn_state_changes, incoming, turn}
use tryst_core_portfolio.Manager.Loop.Reports.{is_local}

-- The messages that a session sent, oldest first.
unfoldable pub in_order : List (ℕ × ProtoMessage) → List ProtoMessage
in_order [] = []
in_order ((_, msg) ∷ earlier) = in_order earlier ++ msg ∷ []

-- The messages that were sent between two states of a session.
unfoldable pub posted :
    {EndpointId : Type 0} → Session EndpointId → Session EndpointId → List ProtoMessage
posted before after = drop (length before.sent) (in_order after.sent)

module _ {EndpointId : Type 0} ⦃order : EndpointOrder EndpointId⦄ where
  -- A turn of a side, with the queue of the messages to it and the queue of those from it.
  pub data Move (repo : Repository) (is_open : ℕ → Bool) (m : Manager EndpointId repo)
      (inbox outbox : List ProtoMessage)
      : Manager EndpointId repo → List ProtoMessage → List ProtoMessage → Type 0 where
    acts :
        (b : Branch EndpointId repo)
        → is_local b ≡ true
        → (turn EndpointId repo is_open b m).1 ≡ continues
        → (turn EndpointId repo is_open b m).0.session.conn ≡ m.session.conn
        → Move repo is_open m inbox outbox
            (turn EndpointId repo is_open b m).0
            inbox
            (outbox ++ posted m.session (turn EndpointId repo is_open b m).0.session)
    takes :
        (bytes : Option SyncMessage) (rest : List ProtoMessage) (msg : Option repo.SyncMsg)
        (chunks : List repo.Message) (action : Option (Option repo.SyncMsg)) (d' : repo.Doc)
        → inbox ≡ sync bytes ∷ rest
        → decoded EndpointId repo bytes ≡ some msg
        → repo.receive_sync_message msg m.doc ≡ (ok (chunks, action), d')
        → Move repo is_open m inbox outbox
            (turn EndpointId repo is_open (incoming (λ _. some (sync bytes))) m).0
            rest
            (outbox
              ++ posted m.session
                  (turn EndpointId repo is_open (incoming (λ _. some (sync bytes))) m).0.session)

-- The two sides, with the messages that are on the way to each.
pub record Net (EndpointId : Type 0) (left_repo right_repo : Repository) : Type 0 where
  pub left : Manager EndpointId left_repo
  pub right : Manager EndpointId right_repo
  pub to_left : List ProtoMessage
  pub to_right : List ProtoMessage

module _ {EndpointId : Type 0} ⦃order : EndpointOrder EndpointId⦄
    {left_repo right_repo : Repository} (left_open right_open : ℕ → Bool) where
  pub data Step (n : Net EndpointId left_repo right_repo)
      : Net EndpointId left_repo right_repo → Type 0 where
    at_left :
        {m : Manager EndpointId left_repo} {inbox outbox : List ProtoMessage}
        → Move left_repo left_open n.left n.to_left n.to_right m inbox outbox
        → Step n (record { left = m; right = n.right; to_left = inbox; to_right = outbox })
    at_right :
        {m : Manager EndpointId right_repo} {inbox outbox : List ProtoMessage}
        → Move right_repo right_open n.right n.to_right n.to_left m inbox outbox
        → Step n (record { left = n.left; right = m; to_left = outbox; to_right = inbox })

  -- Both sides have just handled that they are connected, and nothing has arrived.
  abbrev pub start :
      Manager EndpointId left_repo
      → Manager EndpointId right_repo
      → Net EndpointId left_repo right_repo
  start l r =
      let l' = (turn EndpointId left_repo left_open conn_state_changes l).0 in
      let r' = (turn EndpointId right_repo right_open conn_state_changes r).0 in
      record {
        left = l';
        right = r';
        to_left = posted r.session r'.session;
        to_right = posted l.session l'.session;
      }

  pub data Reach (n : Net EndpointId left_repo right_repo)
      : Net EndpointId left_repo right_repo → Type 0 where
    here : Reach n n
    later : {a b : Net EndpointId left_repo right_repo} → Reach n a → Step a b → Reach n b
