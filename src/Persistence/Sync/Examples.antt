-- ===== src/Persistence/Sync/Examples.antt =====
-- The theorems on the repository's operations at concrete inputs: the document is a list of numbers,
-- a message that comes in is a list of numbers behind it, and one that goes out says how many there
-- are behind the first three.
use tryst_core_portfolio.Prelude.{
  ℕ, ◌≡◌, ◌≢◌, refl, ◌⊎◌, true, false, List, [], ◌∷◌, ◌++◌, Option, some, none, length, drop, ok,
  err, ℕ_discrete,
}
use tryst_core_portfolio.Persistence.Snapshots.{Db, StoreError, find_document, log_rows}
use tryst_core_portfolio.Persistence.Snapshots.Numbers.{numbers, numbers_laws}
use tryst_core_portfolio.Persistence.Sync.{
  Documents, ChatRepository, set_synced, generate_sync_message, receive_sync_message, add_message,
}
use tryst_core_portfolio.Persistence.Sync.Quiet.{receive_sync_message_lem}
use tryst_core_portfolio.Persistence.Sync.Kept.{
  Saved, receive_sync_message-Saved, add_message-Saved,
}

abbrev behind : List ℕ → Option (List ℕ)
behind [] = none
behind (x ∷ xs) = some (x ∷ xs)

abbrev lists : Documents (List ℕ) ℕ (List ℕ) ℕ ℕ ℕ
lists = record {
  new_state = 0;
  generate = λ d n. (behind (drop n d), length d);
  receive = λ msg d n. (ok [], d ++ msg, n);
  append_message = λ c d. ok (c, d ++ c ∷ []);
  get_list = λ key d. ok none;
  hydrate = λ l i d. err StoreError.automerge;
  created_at = λ m. m;
}

abbrev tables : Db ℕ
tables = record {
  chats = (7, 1 ∷ 2 ∷ []) ∷ [];
  chat_log = record { id = 1; chat_id = 7; content = 4 ∷ [] } ∷ [];
  next_id = 2;
}

abbrev repository : ChatRepository ℕ (List ℕ) ℕ ℕ
repository = record {
  stored = record { chat_id = 7; doc = 1 ∷ 2 ∷ 4 ∷ []; last_saved_heads = 3 };
  sync_state = 3;
  synced = false;
  woken = [];
}

repository-Saved : Saved ℕ_discrete numbers lists numbers_laws 7 (1 ∷ 2 ∷ 4 ∷ []) repository tables
unfolding find_document ℕ_discrete log_rows
repository-Saved = record {
  document = refl;
  chat = refl;
  stored = record {
    snapshot = 1 ∷ 2 ∷ [];
    base = 1 ∷ 2 ∷ [];
    found = refl;
    loads = refl;
    replays = refl;
  };
  heads = refl;
}

abbrev empty_message : Option (List ℕ)
empty_message = none

abbrev no_answer : Option (Option (List ℕ))
no_answer = none

receive_sync_message_lem_example :
    (out : Option (List ℕ)) × (lists.generate (1 ∷ 2 ∷ 4 ∷ []) 3 ≡ (out, 3))
    × (repository.stored.doc ≡ 1 ∷ 2 ∷ 4 ∷ [])
    × (((out ≡ none) × (empty_message ≡ none) × (no_answer ≡ none) × (true ≡ true))
        ⊎ ((out ≡ none) × (empty_message ≢ none) × (no_answer ≡ some none) × (true ≡ true))
        ⊎ ((m : List ℕ) × (out ≡ some m) × (no_answer ≡ some (some m)) × (true ≡ false)))
unfolding receive_sync_message generate_sync_message set_synced
receive_sync_message_lem_example =
    receive_sync_message_lem numbers lists false empty_message repository
      (record repository { synced = true; woken = true ∷ [] }) tables tables [] no_answer refl

receive_sync_message-Saved_example :
    ((receive_sync_message numbers lists false (some (5 ∷ [])) repository tables).0
      ≡ err StoreError.sqlx)
    ⊎ Saved ℕ_discrete numbers lists numbers_laws 7
        (1 ∷ 2 ∷ 4 ∷ 5 ∷ [])
        (receive_sync_message numbers lists false (some (5 ∷ [])) repository tables).1
        (receive_sync_message numbers lists false (some (5 ∷ [])) repository tables).2
receive_sync_message-Saved_example =
    receive_sync_message-Saved ℕ_discrete numbers lists numbers_laws false (5 ∷ []) 7 repository
      (1 ∷ 2 ∷ 4 ∷ []) (1 ∷ 2 ∷ 4 ∷ 5 ∷ []) 3 [] tables repository-Saved refl (5 ∷ [], refl)

add_message-Saved_example :
    ((add_message numbers lists false 6 repository tables).0 ≡ err StoreError.sqlx)
    ⊎ Saved ℕ_discrete numbers lists numbers_laws 7
        (1 ∷ 2 ∷ 4 ∷ 6 ∷ [])
        (add_message numbers lists false 6 repository tables).1
        (add_message numbers lists false 6 repository tables).2
add_message-Saved_example =
    add_message-Saved ℕ_discrete numbers lists numbers_laws false 6 6 7 repository (1 ∷ 2 ∷ 4 ∷ [])
      (1 ∷ 2 ∷ 4 ∷ 6 ∷ []) tables repository-Saved refl (6 ∷ [], refl)
