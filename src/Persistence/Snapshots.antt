-- ===== src/Persistence/Snapshots.antt =====
-- How src/persistence.rs stores a chat document: a snapshot in the table `chats`, and behind it the
-- rows of `chat_log`, which `persist_chat` appends and `get_persisted_doc_state` folds back in.
--
-- automerge is a parameter, `Crdt`, and so is the document that a new chat starts from, which
-- autosurgeon makes (`init`). The two tables are lists of rows; the rows of the log stand in
-- the order of their ids, since the id is AUTOINCREMENT. A chat id is its text, of any type with
-- decidable equality. `Faults` says which statements the database refuses; a transaction that fails
-- changes nothing. What other connections write is three functions on the tables: `between` before the
-- second query of a round, `others` before the insert or the transaction, `meanwhile` from an insert
-- that was ignored to the next round.
pub mod Tables
pub mod Reload
pub mod Numbers
pub mod Numbering
pub mod Alone
mod Examples
use tryst_core_portfolio.Prelude.{
  ℕ, zero, suc, ◌+◌, Bool, true, false, List, [], ◌∷◌, ◌++◌, Option, none, some, leb, ltb, not,
  ◌&&◌, if◌then◌else◌, length, Result, ok, err, ◌>>=◌, ite, ◌≡◌,
}

pub record Crdt (Doc Heads : Type 0) : Type 0 where
  pub load : List ℕ → Option Doc
  pub load_incremental : List ℕ → Doc → Option Doc
  pub save : Doc → List ℕ
  pub save_after : Heads → Doc → List ℕ
  pub get_heads : Doc → Heads

pub record LogRow (Key : Type 0) : Type 0 where
  pub id : ℕ
  pub chat_id : Key
  pub content : List ℕ

pub record Db (Key : Type 0) : Type 0 where
  pub chats : List (Key × List ℕ)
  pub chat_log : List (LogRow Key)
  pub next_id : ℕ

pub data StoreError : Type 0 where
  sqlx automerge unexpected : StoreError

pub record Faults : Type 0 where
  pub select_snapshot : Bool
  pub select_log : Bool
  pub transaction : Bool
  pub insert_chat : Bool

abbrev pub no_faults : Faults
no_faults = record {
  select_snapshot = false;
  select_log = false;
  transaction = false;
  insert_chat = false;
}

-- `CHAT_LOGS_LIMIT`.
abbrev pub chat_logs_limit : ℕ
chat_logs_limit = 512

module _ {Key : Type 0} (dec : Discrete Key) where
  -- `SELECT document FROM chats WHERE chat_id = ?`.
  unfoldable pub find_document : Key → List (Key × List ℕ) → Option (List ℕ)
  find_document k [] = none
  find_document k ((j, d) ∷ rows) = ite (dec j k) (some d) (find_document k rows)

  -- `SELECT id, data FROM chat_log WHERE chat_id = ? ORDER BY id ASC`.
  unfoldable pub log_rows : Key → List (LogRow Key) → List (LogRow Key)
  log_rows k [] = []
  log_rows k (r ∷ rows) = ite (dec r.chat_id k) (r ∷ log_rows k rows) (log_rows k rows)

  -- `UPDATE chats SET document = ? WHERE chat_id = ?`.
  unfoldable pub update_document : Key → List ℕ → List (Key × List ℕ) → List (Key × List ℕ)
  update_document k d [] = []
  update_document k d ((j, e) ∷ rows) =
      ite (dec j k) ((j, d) ∷ update_document k d rows) ((j, e) ∷ update_document k d rows)

  -- `DELETE FROM chat_log WHERE chat_id = ? AND id <= ?`.
  unfoldable pub delete_log : Key → ℕ → List (LogRow Key) → List (LogRow Key)
  delete_log k max_id [] = []
  delete_log k max_id (r ∷ rows) =
      ite (dec r.chat_id k)
        (if leb r.id max_id then delete_log k max_id rows else r ∷ delete_log k max_id rows)
        (r ∷ delete_log k max_id rows)

-- `INSERT INTO chat_log (chat_id, data) VALUES (?, ?)`.
unfoldable pub insert_log : {Key : Type 0} → Key → List ℕ → Db Key → Db Key
insert_log k d db = record db {
  chat_log = db.chat_log ++ record { id = db.next_id; chat_id = k; content = d } ∷ [];
  next_id = suc db.next_id;
}

-- `change_chunks.concat()`.
abbrev pub concat_rows : {Key : Type 0} → List (LogRow Key) → List ℕ
concat_rows [] = []
concat_rows (r ∷ rows) = r.content ++ concat_rows rows

-- The id of the last row, 0 if there is none.
abbrev pub last_id : {Key : Type 0} → List (LogRow Key) → ℕ
last_id [] = 0
last_id (r ∷ []) = r.id
last_id (r ∷ s ∷ rows) = last_id (s ∷ rows)

abbrev pub or_error : {A : Type 0} → StoreError → Option A → Result A StoreError
or_error e none = err e
or_error e (some a) = ok a

abbrev pub guard : Bool → Result (Unit {0}) StoreError
guard true = err sqlx
guard false = ok tt

module _ {Key Doc Heads : Type 0} (dec : Discrete Key) (crdt : Crdt Doc Heads)
    (init : Key → Option Doc) where
  open crdt use {load, load_incremental, save, save_after, get_heads}

  -- The compaction: one transaction that stores the new snapshot and deletes the rows in it.
  unfoldable pub compact : Key → List ℕ → ℕ → Db Key → Db Key
  unfolding update_document delete_log
  compact k snapshot max_id db = record db {
    chats = update_document dec k snapshot db.chats;
    chat_log = delete_log dec k max_id db.chat_log;
  }

  -- The log rows behind a loaded snapshot; `others` is what others write before the transaction.
  pub load_log :
      Faults
      → (Db Key → Db Key)
      → Key
      → Doc
      → List (LogRow Key)
      → Db Key
      → Result (Doc × Db Key) StoreError
  unfolding compact
  load_log faults others k doc [] db = ok (doc, db)
  load_log faults others k doc (r ∷ rows) db = do
    doc' ← or_error automerge (load_incremental (concat_rows (r ∷ rows)) doc)
    if ltb chat_logs_limit (length (r ∷ rows))
        then (guard faults.transaction >>= λ _.
            ok (doc', compact k (save doc') (last_id (r ∷ rows)) (others db)))
        else ok (doc', db)

  -- What follows the first query, from the tables that the second one reads.
  load_snapshot :
      Faults
      → (Db Key → Db Key)
      → Key
      → List ℕ
      → Db Key
      → Result ((Doc × Heads) × Db Key) StoreError
  unfolding load_log log_rows
  load_snapshot faults others k document db = do
    doc ← or_error automerge (load document)
    _ ← guard faults.select_log
    loaded ← load_log faults others k doc (log_rows dec k db.chat_log) db
    ok ((loaded.0, get_heads loaded.0), loaded.1)

  -- `get_persisted_doc_state`: the document with its heads, and the tables; `none` without fuel. The
  -- round inserts a fresh document unless a row came in between, and then goes round again.
  unfoldable pub get_persisted_doc_state :
      Faults
      → (between others meanwhile : Db Key → Db Key) → ℕ
      → Key
      → Db Key
      → Option (Result ((Doc × Heads) × Db Key) StoreError)
  unfolding load_snapshot find_document
  get_persisted_doc_state faults between others meanwhile zero k db = none
  get_persisted_doc_state faults between others meanwhile (suc fuel) k db =
      let again =
        get_persisted_doc_state faults between others meanwhile fuel k (meanwhile (others db)) in
      if faults.select_snapshot then some (err sqlx) else elim (find_document dec k db.chats) [
        | some document ↦ some (load_snapshot faults others k document (between db))
        | none ↦ elim (init k) [
          | none ↦ some (err unexpected)
          | some doc ↦
              if faults.insert_chat
              then some (err sqlx)
              else elim (find_document dec k (others db).chats) [
                | some _ ↦ again
                | none ↦ some (
                    ok (
                      (doc, get_heads doc),
                      record (others db) { chats = (others db).chats ++ (k, save doc) ∷ [] },
                    ))
              ]
        ]
      ]

-- What `persist_chat` reads and changes of a repository.
pub record Repo (Key Doc Heads : Type 0) : Type 0 where
  pub chat_id : Key
  pub doc : Doc
  pub last_saved_heads : Heads

abbrev is_empty : List ℕ → Bool
is_empty [] = true
is_empty (_ ∷ _) = false

-- `persist_chat`; the flag says whether the database refuses the row.
unfoldable pub persist_chat :
    {Key Doc Heads : Type 0} (crdt : Crdt Doc Heads)
    → Bool
    → Repo Key Doc Heads
    → Db Key
    → Result (Repo Key Doc Heads × Db Key) StoreError
unfolding insert_log
persist_chat crdt refused r db =
    let new_changes = crdt.save_after r.last_saved_heads r.doc in
    if is_empty new_changes
    then ok (r, db)
    else guard refused >>= λ _.
        ok (
          record r { last_saved_heads = crdt.get_heads r.doc },
          insert_log r.chat_id new_changes db,
        )
