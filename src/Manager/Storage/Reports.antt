-- ===== src/Manager/Storage/Reports.antt =====
-- The sync status of src/persistence.rs, as the manager of src/manager.rs relies on it.
mod Examples
use tryst_core_portfolio.Prelude.{
  Text, ℕ, Bool, true, List, [], Option, none, some, Result, ok, err, ◌≡◌, ◌⊎◌, inl, inr, arith,
  Result-cases,
}
use Prim.Native.String.{String}
use tryst_core_portfolio.Failure.{LibError}
use tryst_core_portfolio.Chat.Connection.{EndpointOrder}
use tryst_core_portfolio.Persistence.Snapshots.{Crdt, StoreError}
use tryst_core_portfolio.Persistence.Schema.{ChatMessage, Automerge}
use tryst_core_portfolio.Persistence.Sync
use tryst_core_portfolio.Persistence.Sync.{
  set_synced, add_message, generate_sync_message, receive_sync_message,
}
use tryst_core_portfolio.Persistence.Sync.Quiet.{receive_sync_message_lem}
use tryst_core_portfolio.Manager.Actor.{Manager}
use tryst_core_portfolio.Manager.Repository.{Repository}
use tryst_core_portfolio.Manager.Actor.Reports.{Reports, Linked, is_none}
use tryst_core_portfolio.Manager.Exchange.{Net, start, Reach}
use tryst_core_portfolio.Manager.Exchange.Invariant.{exchange_ends_in_sync}
use tryst_core_portfolio.Manager.Storage.{Syncing, Draft, World, documents, repository}

module _ {Doc ObjId State Msg : Type 0} (am : Automerge Doc ObjId)
    (hydrate_prop : ObjId → ℕ → Doc → Result ChatMessage StoreError)
    (syncing : Syncing Doc State Msg) (my_peer_id : Text) {Key Heads : Type 0} (dec : Discrete Key)
    (crdt : Crdt Doc Heads) (init : Key → Option Doc) (error_text : StoreError → String) where
  abbrev the_repository : Repository
  the_repository = repository am hydrate_prop syncing my_peer_id dec crdt init error_text

  generate-status :
      (w : World am hydrate_prop syncing my_peer_id dec crdt init error_text)
      → (the_repository.generate_sync_message w).1.repo.synced
        ≡ is_none (the_repository.generate_sync_message w).0
  unfolding generate_sync_message set_synced
  generate-status w = ground arith

  receive-status :
      (msg : Option Msg) (w w' : World am hydrate_prop syncing my_peer_id dec crdt init error_text)
      (chunks : List ChatMessage) (action : Option (Option Msg))
      → the_repository.receive_sync_message msg w ≡ (ok (chunks, action), w')
      → ((action ≡ none) × (msg ≡ none) × (w'.repo.synced ≡ true))
        ⊎ ((out : Option Msg) × (action ≡ some out) × (w'.repo.synced ≡ is_none out))
  receive-status msg w w' chunks action h =
      let docs = documents am hydrate_prop syncing my_peer_id in
      let inner = receive_sync_message crdt docs (w.refused w.time) msg w.repo w.db in
      let e : inner ≡ (ok (chunks, action), w'.repo, w'.db) = elim (Result-cases inner.0) [
        | inl (p, q) ↦ ground arith
        | inr (x, q) ↦ ground arith
      ] in
      elim (receive_sync_message_lem crdt docs (w.refused w.time) msg w.repo w'.repo w.db w'.db
        chunks action e).3 [
          | inl (_, empty, a, st) ↦ inl (a, empty, st)
          | inr (inl (_, _, a, st)) ↦ inr (none, a, st)
          | inr (inr (m, _, a, st)) ↦ inr (some m, a, st)
        ]

  add-status :
      (draft : Draft) (w w' : World am hydrate_prop syncing my_peer_id dec crdt init error_text)
      (msg : ChatMessage) (out : Option Msg)
      → the_repository.add_message draft w ≡ (ok (msg, out), w')
      → w'.repo.synced ≡ is_none out
  unfolding add_message generate_sync_message set_synced
  add-status draft w w' msg out h = ground arith

  refusal-status :
      (draft : Draft) (w w' : World am hydrate_prop syncing my_peer_id dec crdt init error_text)
      (e : LibError)
      → the_repository.add_message draft w ≡ (err e, w')
      → w'.repo.synced ≡ w.repo.synced
  unfolding add_message generate_sync_message set_synced
  refusal-status draft w w' e h = ground arith

  pub repository-Reports : Reports the_repository
  repository-Reports = record {
    by_generate = generate-status;
    by_receive = λ msg w w' chunks action. receive-status msg w w' chunks action;
    by_add = λ draft w w' msg out. add-status draft w w' msg out;
    by_refusal = λ draft w w' e. refusal-status draft w w' e;
  }

module _ {Doc ObjId State Msg : Type 0} (am : Automerge Doc ObjId)
    (hydrate_prop : ObjId → ℕ → Doc → Result ChatMessage StoreError)
    (syncing : Syncing Doc State Msg) {Key Heads : Type 0} (dec : Discrete Key)
    (crdt : Crdt Doc Heads) (init : Key → Option Doc) (error_text : StoreError → String) where
  abbrev repository_of : Text → Repository
  repository_of peer = repository am hydrate_prop syncing peer dec crdt init error_text

  module _ {EndpointId : Type 0} ⦃order : EndpointOrder EndpointId⦄ (left_peer right_peer : Text)
      (left_open right_open : ℕ → Bool) where
    -- Two managers with the repository of src/persistence.rs, whatever automerge does, at the ends
    -- of a connection whose channels are open, from when both have handled that they are connected
    -- and no message has arrived, whatever they did before: however their turns come in between,
    -- ticks, calls and messages of the peer, as long as both go on, keep the connection and take
    -- the messages, whenever nothing is on the way both report that they are in sync.
    pub repositories_end_in_sync :
        (l : Manager EndpointId (repository_of left_peer))
        (r : Manager EndpointId (repository_of right_peer))
        (n : Net EndpointId (repository_of left_peer) (repository_of right_peer))
        → Linked EndpointId (repository_of left_peer) left_open l
        → Linked EndpointId (repository_of right_peer) right_open r
        → Reach left_open right_open (start left_open right_open l r) n
        → n.to_left ≡ []
        → n.to_right ≡ []
        → (n.left.doc.repo.synced ≡ true) × (n.right.doc.repo.synced ≡ true)
    repositories_end_in_sync l r n ll rl run i o =
        exchange_ends_in_sync left_open right_open
          (repository-Reports am hydrate_prop syncing left_peer dec crdt init error_text)
          (repository-Reports am hydrate_prop syncing right_peer dec crdt init error_text) l r n ll
          rl run i o
