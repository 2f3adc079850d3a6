-- ===== src/Persistence/Snapshots/Examples.antt =====
-- The theorems on stored documents at concrete inputs: a document is a list of numbers, its heads
-- their count, and the changes after some heads are the numbers behind them.
use tryst_core_portfolio.Prelude.{
  ℕ, ◌<◌, ◌≤◌, ◌≡◌, ◌≢◌, refl, ◌⊎◌, false, List, [], ◌∷◌, ◌++◌, some, none, length, arith, ok, err,
  ℕ_discrete,
}
use tryst_core_portfolio.Persistence.Snapshots.{
  Db, no_faults, StoreError, Repo, persist_chat, get_persisted_doc_state, log_rows, find_document,
  chat_logs_limit,
}
use tryst_core_portfolio.Persistence.Snapshots.Reload.{
  Stored, Appends, persist_chat-Stored, get_persisted_doc_state-Stored,
  get_persisted_doc_state-ends,
}
use tryst_core_portfolio.Persistence.Snapshots.Numbers.{numbers, numbers_laws}

abbrev stored : Db ℕ
stored = record {
  chats = (8, 3 ∷ []) ∷ (7, 1 ∷ 2 ∷ []) ∷ [];
  chat_log = record { id = 1; chat_id = 7; content = 4 ∷ [] } ∷ [];
  next_id = 2;
}

stored-Stored : Stored ℕ_discrete numbers 7 (1 ∷ 2 ∷ 4 ∷ []) stored
unfolding find_document ℕ_discrete log_rows
stored-Stored = record {
  snapshot = 1 ∷ 2 ∷ [];
  base = 1 ∷ 2 ∷ [];
  found = refl;
  loads = refl;
  replays = refl;
}

-- Another connection appends a row between the queries.
abbrev first_row : Db ℕ → Db ℕ
first_row db = record db {
  chat_log = db.chat_log ++ record { id = 1; chat_id = 7; content = 4 ∷ [] } ∷ [];
  next_id = 2;
}

abbrev snapshot_only : Db ℕ
snapshot_only = record { chats = (8, 3 ∷ []) ∷ (7, 1 ∷ 2 ∷ []) ∷ []; chat_log = []; next_id = 1 }

abbrev extended : Repo ℕ (List ℕ) ℕ
extended = record { chat_id = 7; doc = 1 ∷ 2 ∷ 4 ∷ 5 ∷ []; last_saved_heads = 3 }

persist_chat-Stored_example :
    (persist_chat numbers false extended stored ≡ err StoreError.sqlx)
    ⊎ ((r' : Repo ℕ (List ℕ) ℕ) × (db' : Db ℕ) × (persist_chat numbers false extended stored
          ≡ ok (r', db'))
        × Stored ℕ_discrete numbers 7 (1 ∷ 2 ∷ 4 ∷ 5 ∷ []) db'
        × (r'.doc ≡ extended.doc)
        × (r'.last_saved_heads ≡ 4)
        × (r'.chat_id ≡ 7))
persist_chat-Stored_example =
    persist_chat-Stored ℕ_discrete numbers (λ k. some []) numbers_laws false extended
      (1 ∷ 2 ∷ 4 ∷ []) stored stored-Stored refl (5 ∷ [], refl)

-- Another connection appends one row.
abbrev append_row : Db ℕ → Db ℕ
append_row db = record db {
  chat_log = db.chat_log ++ record { id = 2; chat_id = 7; content = 6 ∷ [] } ∷ [];
}

append_row-Appends :
    Appends ℕ_discrete 7 stored
      (append_row stored)
      (record { id = 2; chat_id = 7; content = 6 ∷ [] } ∷ [])
unfolding ℕ_discrete log_rows
append_row-Appends = record { appended = refl; above = (omega arith, tt); same_chats = refl }

-- Another connection stores the chat first.
abbrev store_chat : Db ℕ → Db ℕ
store_chat db = record db { chats = (9, []) ∷ db.chats }

get_persisted_doc_state-Stored_example :
    ((length (log_rows ℕ_discrete 7 stored.chat_log) ≤ chat_logs_limit)
      × (get_persisted_doc_state ℕ_discrete numbers
            (λ k. some [])
            no_faults
            first_row
            append_row
            store_chat
            1
            7
            snapshot_only
          ≡ some (ok ((1 ∷ 2 ∷ 4 ∷ [], 3), stored))))
    ⊎ ((chat_logs_limit < length (log_rows ℕ_discrete 7 stored.chat_log))
        × ((after : Db ℕ) × (get_persisted_doc_state ℕ_discrete numbers
                (λ k. some [])
                no_faults
                first_row
                append_row
                store_chat
                1
                7
                snapshot_only
              ≡ some (ok ((1 ∷ 2 ∷ 4 ∷ [], 3), after)))
            × Stored ℕ_discrete numbers 7 (1 ∷ 2 ∷ 4 ∷ 6 ∷ []) after))
unfolding ℕ_discrete log_rows
get_persisted_doc_state-Stored_example =
    get_persisted_doc_state-Stored ℕ_discrete numbers (λ k. some []) numbers_laws first_row
      append_row store_chat 0 7 (1 ∷ 2 ∷ 4 ∷ []) (1 ∷ 2 ∷ 4 ∷ 6 ∷ []) snapshot_only
      (record { id = 2; chat_id = 7; content = 6 ∷ [] } ∷ []) refl stored-Stored (tt, tt)
      append_row-Appends refl

get_persisted_doc_state-ends_example :
    get_persisted_doc_state ℕ_discrete numbers
      (λ k. some [])
      no_faults
      store_chat
      store_chat
      append_row
      2
      9
      stored
    ≢ none
unfolding ℕ_discrete find_document
get_persisted_doc_state-ends_example =
    get_persisted_doc_state-ends ℕ_discrete numbers (λ k. some []) no_faults store_chat store_chat
      append_row 0 9 stored (λ _ h. ground arith)
