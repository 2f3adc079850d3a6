-- ===== src/Persistence/Snapshots/Numbering.antt =====
-- The ids of the rows of `chat_log`, src/persistence.rs: AUTOINCREMENT gives each new row one above all
-- those before it, and what the module does to the rows keeps that.
use tryst_core_portfolio.Prelude.{
  ℕ, suc, ◌<◌, ◌≤◌, refl, Bool, List, [], ◌∷◌, ◌++◌, Option, ◌≡◌, ok, arith, All, Bool-cases, inl,
  inr, leb, ite, if◌then◌else◌,
}
use tryst_core_portfolio.Persistence.Snapshots.{
  Crdt, Db, LogRow, Faults, Repo, persist_chat, insert_log, delete_log, last_id, compact, load_log,
}
use tryst_core_portfolio.Persistence.Snapshots.Tables.{Ascending}

module _ {Key : Type 0} where
  -- The ids of the log's rows ascend, and the next one is above them.
  pub record Numbered (db : Db Key) : Type 0 where
    pub ascending : Ascending db.chat_log
    pub below : All (λ r. r.id < db.next_id) db.chat_log

  Ascending-append :
      (n : ℕ) (rows : List (LogRow Key)) (row : LogRow Key)
      → row.id ≡ n
      → All (λ r. r.id < n) rows
      → Ascending rows
      → Ascending (rows ++ row ∷ [])
  Ascending-append n [] row e b a = (tt, tt)
  Ascending-append n (r ∷ rows) row e b a =
      (All-snoc rows a.0, Ascending-append n rows row e b.1 a.1)
    where
      All-snoc :
          (rs : List (LogRow Key))
          → All (λ s. r.id ≤ s.id) rs
          → All (λ s. r.id ≤ s.id) (rs ++ row ∷ [])
      All-snoc [] h = (ground (arith, b.0), tt)
      All-snoc (x ∷ rs) h = (h.0, All-snoc rs h.1)

  below-append :
      (n : ℕ) (rows : List (LogRow Key)) (row : LogRow Key)
      → row.id ≡ n
      → All (λ r. r.id < n) rows
      → All (λ r. r.id < suc n) (rows ++ row ∷ [])
  below-append n [] row e b = (ground arith, tt)
  below-append n (r ∷ rows) row e b = (ground (arith, b.0), below-append n rows row e b.1)

  insert_log-Numbered :
      (k : Key) (xs : List ℕ) (db : Db Key) → Numbered db → Numbered (insert_log k xs db)
  unfolding insert_log
  insert_log-Numbered k xs db n =
      let row : LogRow Key = record { id = db.next_id; chat_id = k; content = xs } in
      record {
        ascending = Ascending-append db.next_id db.chat_log row refl n.below n.ascending;
        below = below-append db.next_id db.chat_log row refl n.below;
      }

pub persist_chat-Numbered :
    {Key Doc Heads : Type 0} (crdt : Crdt Doc Heads) (refused : Bool) (r r' : Repo Key Doc Heads)
    (db db' : Db Key)
    → Numbered db
    → persist_chat crdt refused r db ≡ ok (r', db')
    → Numbered db'
unfolding persist_chat
persist_chat-Numbered crdt refused r r' db db' n h =
    ground (arith, n, insert_log-Numbered r.chat_id (crdt.save_after r.last_saved_heads r.doc) db n)

module _ {Key : Type 0} (dec : Discrete Key) where
  delete_log-All :
      (P : LogRow Key → Type 0) (k : Key) (n : ℕ) (rows : List (LogRow Key))
      → All P rows
      → All P (delete_log dec k n rows)
  unfolding delete_log
  delete_log-All P k n [] h = tt
  delete_log-All P k n (r ∷ rows) h =
      elim (dec r.chat_id k)
        as (λ d. All P (
          ite d (if leb r.id n then delete_log dec k n rows else r ∷ delete_log dec k n rows)
            (r ∷ delete_log dec k n rows))) [
              | yes _ ↦ elim (Bool-cases (leb r.id n)) [
                | inl old ↦ rw old (delete_log-All P k n rows h.1)
                | inr new ↦ rw new (h.0, delete_log-All P k n rows h.1)
              ]
              | no _ ↦ (h.0, delete_log-All P k n rows h.1)
            ]

  delete_log-Ascending :
      (k : Key) (n : ℕ) (rows : List (LogRow Key))
      → Ascending rows
      → Ascending (delete_log dec k n rows)
  unfolding delete_log
  delete_log-Ascending k n [] h = tt
  delete_log-Ascending k n (r ∷ rows) h =
      ground
        (arith, delete_log-All (λ s. r.id ≤ s.id) k n rows h.0, delete_log-Ascending k n rows h.1)

module _ {Key Doc Heads : Type 0} (dec : Discrete Key) (crdt : Crdt Doc Heads)
    (init : Key → Option Doc) where
  compact-Numbered :
      (k : Key) (snapshot : List ℕ) (max_id : ℕ) (db : Db Key)
      → Numbered db
      → Numbered (compact dec crdt init k snapshot max_id db)
  unfolding compact
  compact-Numbered k snapshot max_id db n = record {
    ascending = delete_log-Ascending dec k max_id db.chat_log n.ascending;
    below = delete_log-All dec (λ r. r.id < db.next_id) k max_id db.chat_log n.below;
  }

  pub load_log-Numbered :
      (faults : Faults) (others : Db Key → Db Key) (k : Key) (doc doc' : Doc)
      (rows : List (LogRow Key)) (db db' : Db Key)
      → Numbered db
      → Numbered (others db)
      → load_log dec crdt init faults others k doc rows db ≡ ok (doc', db')
      → Numbered db'
  unfolding load_log
  load_log-Numbered faults others k doc doc' [] db db' n o h = ground arith
  load_log-Numbered faults others k doc doc' (r ∷ rows) db db' n o h =
      ground (arith, compact-Numbered k (crdt.save doc') (last_id (r ∷ rows)) (others db) o)
