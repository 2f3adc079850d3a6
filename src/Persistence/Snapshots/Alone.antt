-- ===== src/Persistence/Snapshots/Alone.antt =====
-- Loading a stored chat, src/persistence.rs, where no other connection writes: whatever the database
-- refuses, the tables go on holding the document.
use tryst_core_portfolio.Prelude.{
  ℕ, suc, ◌<◌, List, [], ◌∷◌, Option, some, ◌≡◌, refl, sym, true, ◌⊎◌, inl, inr, ok, err, arith,
  append-nil, length, Bool-cases,
}
use tryst_core_portfolio.Persistence.Snapshots.{
  Crdt, Db, LogRow, Faults, StoreError, log_rows, last_id, compact, load_log, load_snapshot,
  get_persisted_doc_state, concat_rows, chat_logs_limit,
}
use tryst_core_portfolio.Persistence.Snapshots.Numbering.{Numbered, load_log-Numbered}
use tryst_core_portfolio.Persistence.Snapshots.Reload.{
  CrdtLaws, Stored, le-or-lt, load_log-short, load_log-long, compact-Stored,
}

module _ {Key Doc Heads : Type 0} (dec : Discrete Key) (crdt : Crdt Doc Heads)
    (init : Key → Option Doc) {Extends : Doc → Doc → Type 0} (laws : CrdtLaws crdt Extends) where
  load_log-refused :
      (faults : Faults) (others : Db Key → Db Key) (k : Key) (base d : Doc)
      (rows : List (LogRow Key)) (db : Db Key)
      → faults.transaction ≡ true
      → crdt.load_incremental (concat_rows rows) base ≡ some d
      → chat_logs_limit < length rows
      → load_log dec crdt init faults others k base rows db ≡ err StoreError.sqlx
  unfolding load_log
  load_log-refused faults others k base d [] db t l h = ground arith
  load_log-refused faults others k base d (r ∷ rows) db t l h = ground arith

  -- The log behind the snapshot that was found.
  load_log-Stored :
      (faults : Faults) (k : Key) (d : Doc) (db : Db Key) (s : Stored dec crdt k d db)
      → Numbered db
      → ((e : StoreError) × (load_log dec crdt init faults
              (λ x. x)
              k
              s.base
              (log_rows dec k db.chat_log)
              db
            ≡ err e))
        ⊎ ((after : Db Key) × (load_log dec crdt init faults
                (λ x. x)
                k
                s.base
                (log_rows dec k db.chat_log)
                db
              ≡ ok (d, after))
            × Stored dec crdt k d after)
  unfolding log_rows
  load_log-Stored faults k d db s n =
      let rows = log_rows dec k db.chat_log in
      elim (le-or-lt (length rows) chat_logs_limit) [
        | inl short ↦ inr (
          db,
          load_log-short dec crdt init laws faults (λ x. x) k s.base d rows db s.replays short,
          s,
        )
        | inr long ↦ elim (Bool-cases faults.transaction) [
          | inl bad ↦ inl (
            StoreError.sqlx,
            load_log-refused faults (λ x. x) k s.base d rows db bad s.replays long,
          )
          | inr fine ↦ inr (
            compact dec crdt init k (crdt.save d) (last_id rows) db,
            load_log-long dec crdt init laws faults (λ x. x) k s.base d rows db fine s.replays long,
            compact-Stored dec crdt init laws k d d db db [] s.snapshot s.found n.ascending
                (record { appended = sym (append-nil db.chat_log); above = tt; same_chats = refl })
                (laws.load_none d),
          )
        ]
      ]

  -- If the tables hold a document, and no other connection writes, `get_persisted_doc_state` returns
  -- an error or that document with its heads, after which the tables hold it still.
  pub get_persisted_doc_state-alone :
      (faults : Faults) (fuel : ℕ) (k : Key) (d : Doc) (db : Db Key)
      → Stored dec crdt k d db
      → Numbered db
      → ((e : StoreError) × (get_persisted_doc_state dec crdt init faults
              (λ x. x)
              (λ x. x)
              (λ x. x)
              (suc fuel)
              k
              db
            ≡ some (err e)))
        ⊎ ((after : Db Key) × (get_persisted_doc_state dec crdt init faults
                (λ x. x)
                (λ x. x)
                (λ x. x)
                (suc fuel)
                k
                db
              ≡ some (ok ((d, crdt.get_heads d), after)))
            × Stored dec crdt k d after
            × Numbered after)
  unfolding get_persisted_doc_state load_snapshot
  get_persisted_doc_state-alone faults fuel k d db s n = elim (Bool-cases faults.select_snapshot) [
    | inl bad ↦ inl (StoreError.sqlx, ground arith)
    | inr first ↦ elim (Bool-cases faults.select_log) [
      | inl bad ↦ inl (StoreError.sqlx, ground (arith, s.found, s.loads))
      | inr second ↦ elim (load_log-Stored faults k d db s n) [
        | inl (e, q) ↦ inl (e, ground (arith, s.found, s.loads))
        | inr (after, q, holds) ↦ inr (
          after,
          ground (arith, s.found, s.loads),
          holds,
          load_log-Numbered dec crdt init faults (λ x. x) k s.base d (log_rows dec k db.chat_log) db
              after n n q,
        )
      ]
    ]
  ]
