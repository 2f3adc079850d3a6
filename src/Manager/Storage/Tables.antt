-- ===== src/Manager/Storage/Tables.antt =====
-- What the task of src/manager.rs leaves in the tables of src/persistence.rs.
use tryst_core_portfolio.Prelude.{
  Text, ℕ, Bool, List, Option, Result, ok, err, ◌≡◌, ◌⊎◌, inl, inr, subst, sym,
}
use Prim.Native.String.{String}
use tryst_core_portfolio.Chat.Connection.{EndpointOrder}
use tryst_core_portfolio.Persistence.Snapshots.{Crdt, Db, Faults, StoreError}
use tryst_core_portfolio.Persistence.Snapshots.Reload.{CrdtLaws}
use tryst_core_portfolio.Persistence.Schema.{ChatMessage, Automerge}
use tryst_core_portfolio.Persistence.Sync.{ChatRepository}
use tryst_core_portfolio.Persistence.Sync.Durable.{
  DocumentLaws, Grown, generate_sync_message-Durable, receive_sync_message-Durable,
  add_message-Durable, reset_sync_state-Durable,
}
use tryst_core_portfolio.Persistence.Sync.Reset.{new, new-Durable, reset_from_tables-Durable}
use tryst_core_portfolio.Manager.Actor.{Manager}
use tryst_core_portfolio.Manager.Actor.Documents.{Preserved}
use tryst_core_portfolio.Manager.Loop.{Branch, task}
use tryst_core_portfolio.Manager.Loop.Documents.{task-Good}
use tryst_core_portfolio.Manager.Storage.{Syncing, World, documents, repository}

module _ {Doc ObjId State Msg : Type 0} (am : Automerge Doc ObjId)
    (hydrate_prop : ObjId → ℕ → Doc → Result ChatMessage StoreError)
    (syncing : Syncing Doc State Msg) (my_peer_id : Text) {Key Heads : Type 0} (dec : Discrete Key)
    (crdt : Crdt Doc Heads) (init : Key → Option Doc) (error_text : StoreError → String)
    {Extends : Doc → Doc → Type 0} (laws : CrdtLaws crdt Extends)
    (doc_laws : DocumentLaws (documents am hydrate_prop syncing my_peer_id) Extends) (k : Key)
    (d : Doc) where
  -- The tables of the repository hold a document of the chat that extends `d`.
  abbrev pub Holding : World am hydrate_prop syncing my_peer_id dec crdt init error_text → Type 0
  Holding w = Grown dec crdt (documents am hydrate_prop syncing my_peer_id) Extends k d w.repo w.db

  grow :
      (e : Doc) (r : ChatRepository Key Doc Heads State) (db : Db Key)
      → Extends d e
      → Grown dec crdt (documents am hydrate_prop syncing my_peer_id) Extends k e r db
      → Grown dec crdt (documents am hydrate_prop syncing my_peer_id) Extends k d r db
  grow e r db x (f, y, h) = (f, doc_laws.extends_trans d e f x y, h)

  Holding-Preserved :
      Preserved (repository am hydrate_prop syncing my_peer_id dec crdt init error_text) Holding
  Holding-Preserved =
      let docs = documents am hydrate_prop syncing my_peer_id in
      record {
        by_generate = λ w h. (
          h.0,
          h.1,
          generate_sync_message-Durable dec crdt docs laws doc_laws k h.0 w.repo w.db h.2,
        );
        by_receive = λ msg w h. grow h.0 _ _ h.1 (
            receive_sync_message-Durable dec crdt docs laws doc_laws (w.refused w.time) msg k h.0
              w.repo w.db h.2);
        by_add = λ draft w h. grow h.0 _ _ h.1 (
            add_message-Durable dec crdt docs laws doc_laws (w.refused w.time) draft k h.0 w.repo
              w.db h.2);
        by_reset = λ w h. (
          h.0,
          h.1,
          reset_from_tables-Durable dec crdt init docs laws doc_laws (w.faults w.time) k h.0 w.repo
              w.db h.2,
        );
        by_reset_sync = λ w h.
            (h.0, h.1, reset_sync_state-Durable dec crdt docs laws doc_laws k h.0 w.repo w.db h.2);
      }

  task-Holding :
      {EndpointId : Type 0} ⦃order : EndpointOrder EndpointId⦄ (is_open : ℕ → Bool)
      (bs : List (
        Branch EndpointId (repository am hydrate_prop syncing my_peer_id dec crdt init error_text)))
      (m : Manager EndpointId
        (repository am hydrate_prop syncing my_peer_id dec crdt init error_text))
      → Holding m.doc
      → Holding
          (task EndpointId
            (repository am hydrate_prop syncing my_peer_id dec crdt init error_text)
            is_open
            bs
            m).0.doc
  task-Holding {EndpointId} is_open bs m h =
      task-Good EndpointId (repository am hydrate_prop syncing my_peer_id dec crdt init error_text)
        Holding Holding-Preserved is_open bs m h

  -- If the tables hold a document at the start, with the saved heads, and the document in memory goes
  -- on from it, then whatever the manager's task does, and whatever the database refuses meanwhile, the
  -- tables hold a document that extends the one of the start, with its heads as the saved ones, and
  -- the document in memory goes on from that; and `ChatRepository::new` on these tables reports an
  -- error or gives a repository whose document extends the one of the start.
  pub new-task :
      {EndpointId : Type 0} ⦃order : EndpointOrder EndpointId⦄ (is_open : ℕ → Bool)
      (bs : List (
        Branch EndpointId (repository am hydrate_prop syncing my_peer_id dec crdt init error_text)))
      (m : Manager EndpointId
        (repository am hydrate_prop syncing my_peer_id dec crdt init error_text))
      (faults : Faults)
      → Holding m.doc
      → Holding
          (task EndpointId
            (repository am hydrate_prop syncing my_peer_id dec crdt init error_text)
            is_open
            bs
            m).0.doc
        × (((e : StoreError) × (new dec crdt init
                  (documents am hydrate_prop syncing my_peer_id)
                  faults
                  k
                  (task EndpointId
                    (repository am hydrate_prop syncing my_peer_id dec crdt init error_text)
                    is_open
                    bs
                    m).0.doc.db
                ≡ err e))
            ⊎ ((r : ChatRepository Key Doc Heads State) × (after : Db Key) × (new dec crdt init
                    (documents am hydrate_prop syncing my_peer_id)
                    faults
                    k
                    (task EndpointId
                      (repository am hydrate_prop syncing my_peer_id dec crdt init error_text)
                      is_open
                      bs
                      m).0.doc.db
                  ≡ ok (r, after))
                × Extends d r.stored.doc))
  new-task is_open bs m faults h =
      let t = task-Holding is_open bs m h in
      let docs = documents am hydrate_prop syncing my_peer_id in
      let (e, x, durable) = t in
      (
        t,
        elim (new-Durable dec crdt init docs laws doc_laws faults k e _ durable.holds
            durable.numbered) [
              | inl failed ↦ inl failed
              | inr (r, after, q, same, _) ↦ inr (r, after, q, subst (Extends d) (sym same) x)
            ],
      )
