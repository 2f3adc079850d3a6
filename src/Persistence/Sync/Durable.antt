-- ===== src/Persistence/Sync/Durable.antt =====
-- What every operation of src/persistence.rs that changes a document keeps, whether it works or not:
-- the tables hold a document that the one in memory goes on from.
use tryst_core_portfolio.Prelude.{
  subst, sym, ap, ◌∙◌, refl, Bool, List, [], Option, none, some, ◌≡◌, inl, inr, Result, ok, err,
  arith, Result-cases,
}
use tryst_core_portfolio.Persistence.Snapshots.{Crdt, Db, StoreError}
use tryst_core_portfolio.Persistence.Snapshots.Numbering.{Numbered, persist_chat-Numbered}
use tryst_core_portfolio.Persistence.Snapshots.Reload.{CrdtLaws, Stored, persist_chat-Stored}
use tryst_core_portfolio.Persistence.Sync.{
  Prop, Documents, ChatRepository, Outcome, extracted, added, persisted, received, answer,
  generate_sync_message, receive_sync_message, add_message, reset_sync_state, set_synced,
}
use tryst_core_portfolio.Persistence.Sync.Kept.{extracted_lem, added_lem}

-- What the code relies on: a document goes on from itself, and an operation of automerge goes on from
-- the document that it gets, also where it fails.
pub record DocumentLaws {Doc State Msg Message Content ListId : Type 0}
    (docs : Documents Doc State Msg Message Content ListId) (Extends : Doc → Doc → Type 0)
    : Type 0 where
  pub extends_refl : (d : Doc) → Extends d d
  pub extends_trans : (d e f : Doc) → Extends d e → Extends e f → Extends d f
  pub receive_extends : (msg : Msg) (d : Doc) (st : State) → Extends d (docs.receive msg d st).1
  pub append_extends :
      (content : Content) (m : Message) (d e : Doc)
      → docs.append_message content d ≡ ok (m, e)
      → Extends d e

module _ {Key Doc Heads State Msg Message Content ListId : Type 0} (dec : Discrete Key)
    (crdt : Crdt Doc Heads) (docs : Documents Doc State Msg Message Content ListId)
    (Extends : Doc → Doc → Type 0) where
  -- The tables hold the document `d` of the chat `k`; the saved heads are those of `d`, and the
  -- document in memory extends it.
  pub record Durable (k : Key) (d : Doc) (r : ChatRepository Key Doc Heads State) (db : Db Key)
      : Type 0 where
    pub chat : r.stored.chat_id ≡ k
    pub holds : Stored dec crdt k d db
    pub heads : r.stored.last_saved_heads ≡ crdt.get_heads d
    pub extends : Extends d r.stored.doc
    pub numbered : Numbered db

  -- The tables hold a document that extends `d`.
  abbrev pub Grown : Key → Doc → ChatRepository Key Doc Heads State → Db Key → Type 0
  Grown k d r db = (e : Doc) × Extends d e × Durable k e r db

module _ {Key Doc Heads State Msg Message Content ListId : Type 0} (dec : Discrete Key)
    (crdt : Crdt Doc Heads) (docs : Documents Doc State Msg Message Content ListId)
    {Extends : Doc → Doc → Type 0} (laws : CrdtLaws crdt Extends)
    (doc_laws : DocumentLaws docs Extends) where
  abbrev Known : Key → Doc → ChatRepository Key Doc Heads State → Db Key → Type 0
  Known = Durable dec crdt docs Extends

  abbrev Later : Key → Doc → ChatRepository Key Doc Heads State → Db Key → Type 0
  Later = Grown dec crdt docs Extends

  stays :
      (k : Key) (d : Doc) (r : ChatRepository Key Doc Heads State) (db : Db Key)
      → Known k d r db
      → Later k d r db
  stays k d r db h = (d, doc_laws.extends_refl d, h)

  -- An operation that leaves what is stored, and the saved state of the document.
  same_stored :
      (k : Key) (d : Doc) (r r' : ChatRepository Key Doc Heads State) (db : Db Key)
      → r'.stored ≡ r.stored
      → Known k d r db
      → Known k d r' db
  same_stored k d r r' db e h = record {
    chat = ap (λ s. s.chat_id) e ∙ h.chat;
    holds = h.holds;
    heads = ap (λ s. s.last_saved_heads) e ∙ h.heads;
    extends = subst (λ s. Extends d s.doc) (sym e) h.extends;
    numbered = h.numbered;
  }

  -- The document in memory goes on.
  goes_on :
      (k : Key) (d e : Doc) (r r' : ChatRepository Key Doc Heads State) (db : Db Key)
      → Extends r.stored.doc e
      → r'.stored ≡ record r.stored { doc = e }
      → Known k d r db
      → Known k d r' db
  goes_on k d e r r' db x q h =
      same_stored k d (record r { stored = record r.stored { doc = e } }) r' db q
        (record {
          chat = h.chat;
          holds = h.holds;
          heads = h.heads;
          extends = doc_laws.extends_trans d r.stored.doc e h.extends x;
          numbered = h.numbered;
        })

  pub generate_sync_message-Durable :
      (k : Key) (d : Doc) (r : ChatRepository Key Doc Heads State) (db : Db Key)
      → Known k d r db
      → Known k d (generate_sync_message docs r).1 db
  unfolding generate_sync_message set_synced
  generate_sync_message-Durable k d r db h =
      same_stored k d r (generate_sync_message docs r).1 db (ground arith) h

  pub reset_sync_state-Durable :
      (k : Key) (d : Doc) (r : ChatRepository Key Doc Heads State) (db : Db Key)
      → Known k d r db
      → Known k d (reset_sync_state docs r) db
  unfolding reset_sync_state
  reset_sync_state-Durable k d r db h = same_stored k d r (reset_sync_state docs r) db refl h

  persisted-Durable :
      (A : Type 0) (refused : Bool) (k : Key) (d : Doc) (r : ChatRepository Key Doc Heads State)
      (db : Db Key)
      (next : ChatRepository Key Doc Heads State → Db Key → Outcome Key Doc Heads State A)
      → ((u : ChatRepository Key Doc Heads State) (db' : Db Key)
          → ((next u db').1.stored ≡ u.stored) × ((next u db').2 ≡ db'))
      → Known k d r db
      → Later k d
          (persisted crdt docs A refused r db next).1
          (persisted crdt docs A refused r db next).2
  persisted-Durable A refused k d r db next keeps h =
      let s : Stored dec crdt r.stored.chat_id d db =
        subst (λ c. Stored dec crdt c d db) (sym h.chat) h.holds in
      elim (persist_chat-Stored dec crdt (λ _. none) laws refused r.stored d db s h.heads
        h.extends) [
          | inl bad ↦
              let q : persisted crdt docs A refused r db next ≡ (err StoreError.sqlx, r, db) =
                ground arith in
              subst (λ o. Later k d o.1 o.2) (sym q) (stays k d r db h)
          | inr (stored', db', e, holds, same, heads, chat) ↦
              let u : ChatRepository Key Doc Heads State = record r { stored = stored' } in
              let q : persisted crdt docs A refused r db next ≡ next u db' = ground arith in
              let known : Known k r.stored.doc u db' = record {
                chat = chat ∙ h.chat;
                holds = subst (λ c. Stored dec crdt c r.stored.doc db') h.chat holds;
                heads = heads;
                extends =
                    subst (Extends r.stored.doc) (sym same) (doc_laws.extends_refl r.stored.doc);
                numbered = persist_chat-Numbered crdt refused r.stored stored' db db' h.numbered e;
              } in
              let after : Known k r.stored.doc (next u db').1 (next u db').2 =
                subst (Known k r.stored.doc (next u db').1) (sym (keeps u db').1)
                  (same_stored k r.stored.doc u (next u db').1 db' (keeps u db').0 known) in
              subst (λ o. Later k d o.1 o.2) (sym q) (r.stored.doc, h.extends, after)
        ]

  answer-Durable :
      (k : Key) (d : Doc) (r : ChatRepository Key Doc Heads State) (db : Db Key)
      → Known k d r db
      → Later k d (answer crdt docs none [] r db).1 (answer crdt docs none [] r db).2
  answer-Durable k d r db h =
      stays k d (generate_sync_message docs r).1 db (generate_sync_message-Durable k d r db h)

  received-Durable :
      (refused : Bool) (msg : Msg) (k : Key) (d e : Doc) (st : State)
      (r : ChatRepository Key Doc Heads State) (db : Db Key)
      (result : Result (List (List Prop)) StoreError)
      → Extends r.stored.doc e
      → Known k d r db
      → Later k d
          (received crdt docs refused msg r db (result, e, st)).1
          (received crdt docs refused msg r db (result, e, st)).2
  received-Durable refused msg k d e st r db (err _) x h =
      let r' : ChatRepository Key Doc Heads State = record r {
        stored = record r.stored { doc = e };
        sync_state = st;
      } in
      stays k d r' db (goes_on k d e r r' db x refl h)
  received-Durable refused msg k d e st r db (ok patches) x h =
      let r' : ChatRepository Key Doc Heads State = record r {
        stored = record r.stored { doc = e };
        sync_state = st;
      } in
      persisted-Durable (List Message × Option (Option Msg)) refused k d r' db
        (extracted crdt docs msg patches) (extracted_lem dec crdt docs laws msg patches)
        (goes_on k d e r r' db x refl h)

  -- `receive_sync_message`, whatever fails in it.
  pub receive_sync_message-Durable :
      (refused : Bool) (msg : Option Msg) (k : Key) (d : Doc)
      (r : ChatRepository Key Doc Heads State) (db : Db Key)
      → Known k d r db
      → Later k d
          (receive_sync_message crdt docs refused msg r db).1
          (receive_sync_message crdt docs refused msg r db).2
  unfolding receive_sync_message
  receive_sync_message-Durable refused none k d r db h = answer-Durable k d r db h
  receive_sync_message-Durable refused (some msg) k d r db h =
      let (result, e, st) = docs.receive msg r.stored.doc r.sync_state in
      received-Durable refused msg k d e st r db result
        (doc_laws.receive_extends msg r.stored.doc r.sync_state) h

  -- `add_message`, whatever fails in it.
  pub add_message-Durable :
      (refused : Bool) (content : Content) (k : Key) (d : Doc)
      (r : ChatRepository Key Doc Heads State) (db : Db Key)
      → Known k d r db
      → Later k d
          (add_message crdt docs refused content r db).1
          (add_message crdt docs refused content r db).2
  unfolding add_message
  add_message-Durable refused content k d r db h =
      elim (Result-cases (docs.append_message content r.stored.doc)) [
        | inl ((m, e), q) ↦
            let r' : ChatRepository Key Doc Heads State = record r {
              stored = record r.stored { doc = e };
            } in
            let x = doc_laws.append_extends content m r.stored.doc e q in
            rw q (
              persisted-Durable (Message × Option Msg) refused k d r' db (added crdt docs m)
                (added_lem dec crdt docs laws m) (goes_on k d e r r' db x refl h))
        | inr (bad, q) ↦ rw q (stays k d r db h)
      ]
