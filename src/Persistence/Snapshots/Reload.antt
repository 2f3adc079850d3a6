-- ===== src/Persistence/Snapshots/Reload.antt =====
-- What src/persistence.rs stores is what it loads again: appending to the log, and compacting it,
-- keep the stored document.
use tryst_core_portfolio.Prelude.{
  ℕ, suc, Option, ◌≤◌, ◌<◌, Bool, false, List, [], ◌∷◌, ◌++◌, none, some, leb, ◌≡◌, ◌≢◌, refl, ap,
  sym, ◌∙◌, arith, append-nil, length, ok, err, Bool-cases, inl, inr, ◌⊎◌,
}
use tryst_core_portfolio.Persistence.Snapshots.{
  Crdt, Db, LogRow, Faults, no_faults, StoreError, find_document, log_rows, delete_log, insert_log,
  concat_rows, last_id, compact, load_log, load_snapshot, get_persisted_doc_state, Repo,
  persist_chat, chat_logs_limit,
}
use tryst_core_portfolio.Persistence.Snapshots.Tables.{
  concat-append, Ascending, Above, log_rows-append, find-update, log_rows-delete-UpTo,
  log_rows-delete-Above, delete-append, log_rows-Ascending, Ascending-UpTo,
}

-- What the code relies on in automerge: a saved document loads again; chunks load one after the
-- other; no chunk changes nothing; and the changes after the heads of a document, loaded into it,
-- give the later document, and are empty only if there are none.
pub record CrdtLaws {Doc Heads : Type 0} (crdt : Crdt Doc Heads) (Extends : Doc → Doc → Type 0)
    : Type 0 where
  pub load_saved : (d : Doc) → crdt.load (crdt.save d) ≡ some d
  pub load_none : (d : Doc) → crdt.load_incremental [] d ≡ some d
  pub load_both :
      (a b : List ℕ) (d e : Doc)
      → crdt.load_incremental a d ≡ some e
      → crdt.load_incremental (a ++ b) d ≡ crdt.load_incremental b e
  pub load_changes :
      (d e : Doc)
      → Extends d e
      → crdt.load_incremental (crdt.save_after (crdt.get_heads d) e) d ≡ some e
  pub no_changes : (d e : Doc) → Extends d e → crdt.save_after (crdt.get_heads d) e ≡ [] → d ≡ e

module _ {Key Doc Heads : Type 0} (dec : Discrete Key) (crdt : Crdt Doc Heads) where
  -- The tables hold the document `d` for the chat: its snapshot loads, and the log rows of the chat,
  -- loaded into that, give `d`.
  pub record Stored (k : Key) (d : Doc) (db : Db Key) : Type 0 where
    pub snapshot : List ℕ
    pub base : Doc
    pub found : find_document dec k db.chats ≡ some snapshot
    pub loads : crdt.load snapshot ≡ some base
    pub replays : crdt.load_incremental (concat_rows (log_rows dec k db.chat_log)) base ≡ some d

module _ {Key : Type 0} (dec : Discrete Key) where
  -- `others` appends rows to the log, with ids above those of this chat, and leaves the snapshots.
  pub record Appends (k : Key) (db later : Db Key) (extra : List (LogRow Key)) : Type 0 where
    pub appended : later.chat_log ≡ db.chat_log ++ extra
    pub above : Above (last_id (log_rows dec k db.chat_log)) extra
    pub same_chats : later.chats ≡ db.chats

pub le-or-lt : (m n : ℕ) → (m ≤ n) ⊎ (n < m)
le-or-lt m n = elim (Bool-cases (leb m n)) [
  | inl within ↦ inl (ground arith)
  | inr above ↦ inr (ground arith)
]

empty-cases : (xs : List ℕ) → (xs ≡ []) ⊎ ((y : ℕ) × (ys : List ℕ) × (xs ≡ y ∷ ys))
empty-cases [] = inl refl
empty-cases (y ∷ ys) = inr (y, ys, refl)

module _ {Key Doc Heads : Type 0} (dec : Discrete Key) (crdt : Crdt Doc Heads)
    (init : Key → Option Doc) {Extends : Doc → Doc → Type 0} (laws : CrdtLaws crdt Extends) where
  log_rows-insert :
      (k : Key) (xs : List ℕ) (db : Db Key)
      → concat_rows (log_rows dec k (insert_log k xs db).chat_log)
        ≡ concat_rows (log_rows dec k db.chat_log) ++ xs
  unfolding insert_log log_rows
  log_rows-insert k xs db =
      let row : LogRow Key = record { id = db.next_id; chat_id = k; content = xs } in
      ground (
        arith,
        log_rows-append dec k db.chat_log (row ∷ []),
        concat-append (log_rows dec k db.chat_log) (row ∷ []),
        append-nil xs,
      )

  replays-insert :
      (k : Key) (d e : Doc) (heads : Heads) (base : Doc) (db : Db Key)
      → crdt.load_incremental (concat_rows (log_rows dec k db.chat_log)) base ≡ some d
      → heads ≡ crdt.get_heads d
      → Extends d e
      → crdt.load_incremental
          (concat_rows (log_rows dec k (insert_log k (crdt.save_after heads e) db).chat_log))
          base
        ≡ some e
  replays-insert k d e heads base db l h x =
      rw (log_rows-insert k (crdt.save_after heads e) db, h)
        (laws.load_both _ _ base d l ∙ laws.load_changes d e x)

  -- If the tables hold the document with the saved heads, and the document in memory extends it,
  -- `persist_chat` either reports the database's error or leaves the tables holding the document in
  -- memory, with its heads as the saved ones.
  pub persist_chat-Stored :
      (refused : Bool) (r : Repo Key Doc Heads) (d : Doc) (db : Db Key)
      → Stored dec crdt r.chat_id d db
      → r.last_saved_heads ≡ crdt.get_heads d
      → Extends d r.doc
      → (persist_chat crdt refused r db ≡ err StoreError.sqlx)
        ⊎ ((r' : Repo Key Doc Heads) × (db' : Db Key) × (persist_chat crdt refused r db
              ≡ ok (r', db'))
            × Stored dec crdt r.chat_id r.doc db'
            × (r'.doc ≡ r.doc)
            × (r'.last_saved_heads ≡ crdt.get_heads r.doc)
            × (r'.chat_id ≡ r.chat_id))
  unfolding persist_chat
  persist_chat-Stored refused r d db s h x =
      let new_changes = crdt.save_after r.last_saved_heads r.doc in
      elim (empty-cases new_changes) [
        | inl e ↦
            let same = laws.no_changes d r.doc x (rw (← h) e) in
            inr (r, db, ground arith, rw (← same) s, refl, h ∙ ap crdt.get_heads same, refl)
        | inr (y, ys, e) ↦ elim (Bool-cases refused) [
          | inl bad ↦ inl (ground arith)
          | inr fine ↦ inr (
            record r { last_saved_heads = crdt.get_heads r.doc },
            insert_log r.chat_id new_changes db,
            ground arith,
            record {
              snapshot = s.snapshot;
              base = s.base;
              found = s.found;
              loads = s.loads;
              replays = replays-insert r.chat_id d r.doc r.last_saved_heads s.base db s.replays h x;
            },
            refl,
            refl,
            refl,
          )
        ]
      ]

  -- The tables after a compaction, where others have appended rows with higher ids meanwhile.
  compact_rows :
      (k : Key) (db : Db Key) (extra : List (LogRow Key))
      → Ascending db.chat_log
      → Above (last_id (log_rows dec k db.chat_log)) extra
      → log_rows dec k
          (delete_log dec k (last_id (log_rows dec k db.chat_log)) (db.chat_log ++ extra))
        ≡ log_rows dec k extra
  compact_rows k db extra asc above =
      let n = last_id (log_rows dec k db.chat_log) in
      rw (
        delete-append dec k n db.chat_log extra,
        log_rows-append dec k (delete_log dec k n db.chat_log) (delete_log dec k n extra),
        log_rows-delete-UpTo dec k n db.chat_log (
            Ascending-UpTo (log_rows dec k db.chat_log) (log_rows-Ascending dec k db.chat_log asc)),
        log_rows-delete-Above dec k n extra above,
      )

  -- The log of a chat with the document `d`, loaded within the limit: the tables stay.
  pub load_log-short :
      (faults : Faults) (others : Db Key → Db Key) (k : Key) (base d : Doc)
      (rows : List (LogRow Key)) (db : Db Key)
      → crdt.load_incremental (concat_rows rows) base ≡ some d
      → length rows ≤ chat_logs_limit
      → load_log dec crdt init faults others k base rows db ≡ ok (d, db)
  unfolding load_log
  load_log-short faults others k base d [] db l h = ground (arith, laws.load_none base)
  load_log-short faults others k base d (r ∷ rows) db l h = ground arith

  pub load_log-long :
      (faults : Faults) (others : Db Key → Db Key) (k : Key) (base d : Doc)
      (rows : List (LogRow Key)) (db : Db Key)
      → faults.transaction ≡ false
      → crdt.load_incremental (concat_rows rows) base ≡ some d
      → chat_logs_limit < length rows
      → load_log dec crdt init faults others k base rows db
        ≡ ok (d, compact dec crdt init k (crdt.save d) (last_id rows) (others db))
  unfolding load_log
  load_log-long faults others k base d [] db t l h = ground arith
  load_log-long faults others k base d (r ∷ rows) db t l h = ground arith

  -- What others have appended stands on the new snapshot after a compaction.
  pub compact-Stored :
      (k : Key) (d e : Doc) (db later : Db Key) (extra : List (LogRow Key)) (old : List ℕ)
      → find_document dec k db.chats ≡ some old
      → Ascending db.chat_log
      → Appends dec k db later extra
      → crdt.load_incremental (concat_rows (log_rows dec k extra)) d ≡ some e
      → Stored dec crdt k e
          (compact dec crdt init k (crdt.save d) (last_id (log_rows dec k db.chat_log)) later)
  unfolding compact
  compact-Stored k d e db later extra old f asc a l = record {
    snapshot = crdt.save d;
    base = d;
    found =
        find-update dec k (crdt.save d) later.chats old (ap (find_document dec k) a.same_chats ∙ f);
    loads = laws.load_saved d;
    replays = rw (a.appended, compact_rows k db extra asc a.above) l;
  }

  -- From tables that hold a document when the log is read and have the snapshot of the first query
  -- still, with nothing refused by the database, and while others append rows (with higher ids) that
  -- make the document `e` of it, `get_persisted_doc_state` returns the document with its heads in its
  -- first round. With a log of at most 512 rows the tables stay as they are; with a longer one they
  -- hold `e` afterwards, no row of the others being lost.
  pub get_persisted_doc_state-Stored :
      (between others meanwhile : Db Key → Db Key) (fuel : ℕ) (k : Key) (d e : Doc) (db : Db Key)
      (extra : List (LogRow Key))
      → (between db).chats ≡ db.chats
      → Stored dec crdt k d (between db)
      → Ascending (between db).chat_log
      → Appends dec k (between db) (others (between db)) extra
      → crdt.load_incremental (concat_rows (log_rows dec k extra)) d ≡ some e
      → ((length (log_rows dec k (between db).chat_log) ≤ chat_logs_limit)
          × (get_persisted_doc_state dec crdt init no_faults between others meanwhile
                (suc fuel)
                k
                db
              ≡ some (ok ((d, crdt.get_heads d), between db))))
        ⊎ ((chat_logs_limit < length (log_rows dec k (between db).chat_log))
            × ((after : Db Key) × (get_persisted_doc_state dec crdt init no_faults between others
                    meanwhile
                    (suc fuel)
                    k
                    db
                  ≡ some (ok ((d, crdt.get_heads d), after)))
                × Stored dec crdt k e after))
  unfolding get_persisted_doc_state load_snapshot
  get_persisted_doc_state-Stored between others meanwhile fuel k d e db extra same s asc a l =
      let f : find_document dec k db.chats ≡ some s.snapshot =
        ap (find_document dec k) (sym same) ∙ s.found in
      let rows = log_rows dec k (between db).chat_log in
      elim (le-or-lt (length rows) chat_logs_limit) [
        | inl short ↦ inl (
          short,
          ground (
            arith,
            f,
            s.loads,
            load_log-short no_faults others k s.base d rows (between db) s.replays short,
          ),
        )
        | inr long ↦ inr (
          long,
          (
            compact dec crdt init k (crdt.save d) (last_id rows) (others (between db)),
            ground (
              arith,
              f,
              s.loads,
              load_log-long no_faults others k s.base d rows (between db) refl s.replays long,
            ),
            compact-Stored k d e (between db) (others (between db)) extra s.snapshot s.found asc a
                l,
          ),
        )
      ]

module _ {Key Doc Heads : Type 0} (dec : Discrete Key) (crdt : Crdt Doc Heads)
    (init : Key → Option Doc) where
  -- Whatever the database refuses and whatever others write: two rounds are enough, if a snapshot of
  -- the chat that the insert of the first round meets is still there in the second.
  pub get_persisted_doc_state-ends :
      (faults : Faults) (between others meanwhile : Db Key → Db Key) (fuel : ℕ) (k : Key)
      (db : Db Key)
      → (find_document dec k (others db).chats ≢ none
          → find_document dec k (meanwhile (others db)).chats ≢ none)
      → get_persisted_doc_state dec crdt init faults between others meanwhile (suc (suc fuel)) k db
        ≢ none
  unfolding get_persisted_doc_state
  get_persisted_doc_state-ends faults between others meanwhile fuel k db stays = ground arith
