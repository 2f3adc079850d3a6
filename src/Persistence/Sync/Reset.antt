-- ===== src/Persistence/Sync/Reset.antt =====
-- `ChatRepository::new` and `reset_doc_state_to_persisted` of src/persistence.rs, with what they read
-- from the tables where no other connection writes.
use tryst_core_portfolio.Prelude.{
  false, [], ◌⊎◌, ◌>>=◌, Option, none, some, ◌≡◌, refl, inl, inr, ok, err, Result, subst, sym,
}
use tryst_core_portfolio.Persistence.Snapshots.{
  Crdt, Db, Faults, StoreError, unexpected, get_persisted_doc_state,
}
use tryst_core_portfolio.Persistence.Snapshots.Reload.{CrdtLaws, Stored}
use tryst_core_portfolio.Persistence.Snapshots.Numbering.{Numbered}
use tryst_core_portfolio.Persistence.Snapshots.Alone.{get_persisted_doc_state-alone}
use tryst_core_portfolio.Persistence.Sync.{
  Documents, ChatRepository, Outcome, reset_doc_state_to_persisted,
}
use tryst_core_portfolio.Persistence.Sync.Durable.{DocumentLaws, Durable, reset_sync_state-Durable}

module _ {Key Doc Heads State Msg Message Content ListId : Type 0} (dec : Discrete Key)
    (crdt : Crdt Doc Heads) (init : Key → Option Doc)
    (docs : Documents Doc State Msg Message Content ListId) where
  -- What a loop that ran out of rounds would give stands for an error; one round is enough here.
  abbrev loaded :
      Option (Result ((Doc × Heads) × Db Key) StoreError)
      → Result ((Doc × Heads) × Db Key) StoreError
  loaded none = err unexpected
  loaded (some result) = result

  abbrev read_tables : Faults → Key → Db Key → Result ((Doc × Heads) × Db Key) StoreError
  read_tables faults k db =
      loaded (get_persisted_doc_state dec crdt init faults (λ x. x) (λ x. x) (λ x. x) 2 k db)

  -- `ChatRepository::new`.
  unfoldable pub new :
      Faults → Key → Db Key → Result (ChatRepository Key Doc Heads State × Db Key) StoreError
  unfolding get_persisted_doc_state
  new faults k db = do
    found ← read_tables faults k db
    ok (
      record {
        stored = record { chat_id = k; doc = found.0.0; last_saved_heads = found.0.1 };
        sync_state = docs.new_state;
        synced = false;
        woken = [];
      },
      found.1,
    )

  -- `reset_doc_state_to_persisted`.
  unfoldable pub reset_from_tables :
      Faults → ChatRepository Key Doc Heads State → Db Key → Outcome Key Doc Heads State (Unit {0})
  unfolding get_persisted_doc_state reset_doc_state_to_persisted
  reset_from_tables faults r db =
      reset_doc_state_to_persisted crdt docs (read_tables faults r.stored.chat_id db) r db

  module _ {Extends : Doc → Doc → Type 0} (laws : CrdtLaws crdt Extends)
      (doc_laws : DocumentLaws docs Extends) where
    own_chat :
        (faults : Faults) (d : Doc) (r : ChatRepository Key Doc Heads State) (db : Db Key)
        → Durable dec crdt docs Extends r.stored.chat_id d r db
        → Durable dec crdt docs Extends r.stored.chat_id d
            (reset_from_tables faults r db).1
            (reset_from_tables faults r db).2
    unfolding reset_from_tables reset_doc_state_to_persisted
    own_chat faults d r db h =
        let k = r.stored.chat_id in
        elim (get_persisted_doc_state-alone dec crdt init laws faults 1 k d db h.holds h.numbered) [
          | inl (e, q) ↦ rw q h
          | inr (after, q, holds, numbered) ↦ rw q (
              reset_sync_state-Durable dec crdt docs laws doc_laws k d
                (record r {
                  stored = record r.stored { doc = d; last_saved_heads = crdt.get_heads d };
                })
                after
                (record {
                  chat = refl;
                  holds = holds;
                  heads = refl;
                  extends = doc_laws.extends_refl d;
                  numbered = numbered;
                }))
        ]

    -- A reset that works goes back to what the tables hold; one that fails changes nothing.
    pub reset_from_tables-Durable :
        (faults : Faults) (k : Key) (d : Doc) (r : ChatRepository Key Doc Heads State) (db : Db Key)
        → Durable dec crdt docs Extends k d r db
        → Durable dec crdt docs Extends k d
            (reset_from_tables faults r db).1
            (reset_from_tables faults r db).2
    reset_from_tables-Durable faults k d r db h =
        subst
          (λ c.
            Durable dec crdt docs Extends c d (reset_from_tables faults r db).1
              (reset_from_tables faults r db).2)
          h.chat
          (own_chat faults d r db (record {
            chat = refl;
            holds = subst (λ c. Stored dec crdt c d db) (sym h.chat) h.holds;
            heads = h.heads;
            extends = h.extends;
            numbered = h.numbered;
          }))

    -- A repository that is opened has the document that the tables hold.
    pub new-Durable :
        (faults : Faults) (k : Key) (d : Doc) (db : Db Key)
        → Stored dec crdt k d db
        → Numbered db
        → ((e : StoreError) × (new faults k db ≡ err e))
          ⊎ ((r : ChatRepository Key Doc Heads State) × (after : Db Key) × (new faults k db
                ≡ ok (r, after))
              × (r.stored.doc ≡ d)
              × Durable dec crdt docs Extends k d r after)
    unfolding new
    new-Durable faults k d db s n =
        elim (get_persisted_doc_state-alone dec crdt init laws faults 1 k d db s n) [
          | inl (e, q) ↦ inl (e, rw q refl)
          | inr (after, q, holds, numbered) ↦ inr (
            record {
              stored = record { chat_id = k; doc = d; last_saved_heads = crdt.get_heads d };
              sync_state = docs.new_state;
              synced = false;
              woken = [];
            },
            after,
            rw q refl,
            refl,
            record {
              chat = refl;
              holds = holds;
              heads = refl;
              extends = doc_laws.extends_refl d;
              numbered = numbered;
            },
          )
        ]
