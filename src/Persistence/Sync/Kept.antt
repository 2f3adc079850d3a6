-- ===== src/Persistence/Sync/Kept.antt =====
-- What `receive_sync_message` and `add_message` of src/persistence.rs store.
use tryst_core_portfolio.Prelude.{
  subst, sym, ap, ◌∙◌, Bool, List, Option, none, some, ◌≡◌, ◌⊎◌, inl, inr, ok, err, arith,
}
use tryst_core_portfolio.Persistence.Snapshots.{Crdt, Db, StoreError}
use tryst_core_portfolio.Persistence.Snapshots.Reload.{CrdtLaws, Stored, persist_chat-Stored}
use tryst_core_portfolio.Persistence.Sync.{
  Prop, Documents, ChatRepository, Outcome, extracted, added, appended, persisted, received,
  set_synced, generate_sync_message, receive_sync_message, add_message,
}

module _ {Key Doc Heads State Msg Message Content ListId : Type 0} (dec : Discrete Key)
    (crdt : Crdt Doc Heads) (docs : Documents Doc State Msg Message Content ListId)
    {Extends : Doc → Doc → Type 0} (laws : CrdtLaws crdt Extends) where
  -- The repository `r` of the chat `k` has the document `doc`, and the tables hold it, with its heads
  -- as the saved ones.
  pub record Saved (k : Key) (doc : Doc) (r : ChatRepository Key Doc Heads State) (db : Db Key)
      : Type 0 where
    pub document : r.stored.doc ≡ doc
    pub chat : r.stored.chat_id ≡ k
    pub stored : Stored dec crdt k doc db
    pub heads : r.stored.last_saved_heads ≡ crdt.get_heads doc

  pub extracted_lem :
      (msg : Msg) (patches : List (List Prop)) (r : ChatRepository Key Doc Heads State)
      (db : Db Key)
      → ((extracted crdt docs msg patches r db).1.stored ≡ r.stored)
        × ((extracted crdt docs msg patches r db).2 ≡ db)
  unfolding generate_sync_message set_synced
  extracted_lem msg patches r db = ground arith

  -- The end of an operation that has brought the document in memory to `r.stored.doc`.
  persisted-Saved :
      (A : Type 0) (refused : Bool) (r : ChatRepository Key Doc Heads State) (d : Doc) (db : Db Key)
      (next : ChatRepository Key Doc Heads State → Db Key → Outcome Key Doc Heads State A)
      → ((u : ChatRepository Key Doc Heads State) (db' : Db Key)
          → ((next u db').1.stored ≡ u.stored) × ((next u db').2 ≡ db'))
      → Stored dec crdt r.stored.chat_id d db
      → r.stored.last_saved_heads ≡ crdt.get_heads d
      → Extends d r.stored.doc
      → ((persisted crdt docs A refused r db next).0 ≡ err StoreError.sqlx)
        ⊎ Saved r.stored.chat_id r.stored.doc
            (persisted crdt docs A refused r db next).1
            (persisted crdt docs A refused r db next).2
  persisted-Saved A refused r d db next keeps s h x =
      elim (persist_chat-Stored dec crdt (λ _. none) laws refused r.stored d db s h x) [
        | inl bad ↦ inl (ground arith)
        | inr (stored', db', e, holds, same, heads, chat) ↦
            let u : ChatRepository Key Doc Heads State = record r { stored = stored' } in
            let k = keeps u db' in
            let q : persisted crdt docs A refused r db next ≡ next u db' = ground arith in
            subst (λ o. (o.0 ≡ err StoreError.sqlx) ⊎ Saved r.stored.chat_id r.stored.doc o.1 o.2)
              (sym q)
              (inr (record {
                document = ap (λ t. t.doc) k.0 ∙ same;
                chat = ap (λ t. t.chat_id) k.0 ∙ chat;
                stored = subst (Stored dec crdt r.stored.chat_id r.stored.doc) (sym k.1) holds;
                heads = ap (λ t. t.last_saved_heads) k.0 ∙ heads;
              }))
      ]

  -- If the tables hold the document in memory, and a message that comes in makes a document of it
  -- that extends it, then `receive_sync_message` either reports the database's error or leaves the
  -- tables holding the new document, which is the one in memory, also where the messages of the
  -- patches cannot be read.
  pub receive_sync_message-Saved :
      (refused : Bool) (msg : Msg) (k : Key) (r : ChatRepository Key Doc Heads State) (d doc : Doc)
      (st : State) (patches : List (List Prop)) (db : Db Key)
      → Saved k d r db
      → docs.receive msg d r.sync_state ≡ (ok patches, doc, st)
      → Extends d doc
      → ((receive_sync_message crdt docs refused (some msg) r db).0 ≡ err StoreError.sqlx)
        ⊎ Saved k doc
            (receive_sync_message crdt docs refused (some msg) r db).1
            (receive_sync_message crdt docs refused (some msg) r db).2
  unfolding receive_sync_message
  receive_sync_message-Saved refused msg k r d doc st patches db s h x =
      let r' : ChatRepository Key Doc Heads State = record r {
        stored = record r.stored { doc = doc };
        sync_state = st;
      } in
      let q : receive_sync_message crdt docs refused (some msg) r db
          ≡ persisted crdt docs (List Message × Option (Option Msg)) refused r' db
              (extracted crdt docs msg patches) =
        ap (received crdt docs refused msg r db)
          (ap (λ e. docs.receive msg e r.sync_state) s.document ∙ h) in
      subst (λ o. (o.0 ≡ err StoreError.sqlx) ⊎ Saved k doc o.1 o.2) (sym q)
        (subst
          (λ c.
            ((persisted crdt docs (List Message × Option (Option Msg)) refused r' db
                (extracted crdt docs msg patches)).0
              ≡ err StoreError.sqlx)
            ⊎ Saved c doc
                (persisted crdt docs (List Message × Option (Option Msg)) refused r' db
                  (extracted crdt docs msg patches)).1
                (persisted crdt docs (List Message × Option (Option Msg)) refused r' db
                  (extracted crdt docs msg patches)).2)
          s.chat
          (persisted-Saved (List Message × Option (Option Msg)) refused r' d db
            (extracted crdt docs msg patches) (extracted_lem msg patches)
            (subst (λ c. Stored dec crdt c d db) (sym s.chat) s.stored) s.heads x))

  pub added_lem :
      (m : Message) (r : ChatRepository Key Doc Heads State) (db : Db Key)
      → ((added crdt docs m r db).1.stored ≡ r.stored) × ((added crdt docs m r db).2 ≡ db)
  unfolding generate_sync_message set_synced
  added_lem m r db = ground arith

  -- If the tables hold the document in memory, and a message can be appended to that, then
  -- `add_message` either reports the database's error or leaves the tables holding the document with
  -- the message, which is the one in memory.
  pub add_message-Saved :
      (refused : Bool) (content : Content) (m : Message) (k : Key)
      (r : ChatRepository Key Doc Heads State) (d doc : Doc) (db : Db Key)
      → Saved k d r db
      → docs.append_message content d ≡ ok (m, doc)
      → Extends d doc
      → ((add_message crdt docs refused content r db).0 ≡ err StoreError.sqlx)
        ⊎ Saved k doc
            (add_message crdt docs refused content r db).1
            (add_message crdt docs refused content r db).2
  unfolding add_message
  add_message-Saved refused content m k r d doc db s h x =
      let r' : ChatRepository Key Doc Heads State = record r {
        stored = record r.stored { doc = doc };
      } in
      let q : add_message crdt docs refused content r db
          ≡ persisted crdt docs (Message × Option Msg) refused r' db (added crdt docs m) =
        ap (appended crdt docs refused r db) (ap (docs.append_message content) s.document ∙ h) in
      subst (λ o. (o.0 ≡ err StoreError.sqlx) ⊎ Saved k doc o.1 o.2) (sym q)
        (subst
          (λ c.
            ((persisted crdt docs (Message × Option Msg) refused r' db (added crdt docs m)).0
              ≡ err StoreError.sqlx)
            ⊎ Saved c doc
                (persisted crdt docs (Message × Option Msg) refused r' db (added crdt docs m)).1
                (persisted crdt docs (Message × Option Msg) refused r' db (added crdt docs m)).2)
          s.chat
          (persisted-Saved (Message × Option Msg) refused r' d db (added crdt docs m) (added_lem m)
            (subst (λ c. Stored dec crdt c d db) (sym s.chat) s.stored) s.heads x))
