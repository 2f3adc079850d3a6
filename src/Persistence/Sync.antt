-- ===== src/Persistence/Sync.antt =====
-- The operations of `ChatRepository` in src/persistence.rs that change the document: a message is
-- added, a sync message comes in, a sync message is made, the document is reset.
--
-- automerge, autosurgeon and the reads of src/persistence/schema.rs are the parameter `Documents`; an
-- operation of theirs that fails may leave the document changed. `synced` is the value in the watch
-- channel of the sync status, `woken` the values that woke its receivers, newest first. A text is
-- the list of its code points, and a time stamp an i64 that is moved up to be a natural number.
pub mod Quiet
pub mod Kept
pub mod Durable
pub mod Reset
mod Examples
use tryst_core_portfolio.Prelude.{
  ℕ, Bool, true, false, List, [], ◌∷◌, ◌++◌, Option, none, some, if◌then◌else◌, leb, strip_prefix,
  sort, Result, ok, err, ◌>>=◌, ◌≡◌,
}
use tryst_core_portfolio.Persistence.Snapshots.{
  Crdt, Db, StoreError, Faults, Repo, persist_chat, get_persisted_doc_state,
}
use tryst_core_portfolio.Persistence.Schema.{list_prefix}

-- A step of a patch's path.
pub data Prop : Type 0 where
  map_key : List ℕ → Prop
  seq : ℕ → Prop

pub record Documents (Doc State Msg Message Content ListId : Type 0) : Type 0 where
  pub new_state : State
  pub generate : Doc → State → Option Msg × State
  pub receive : Msg → Doc → State → Result (List (List Prop)) StoreError × Doc × State
  pub append_message : Content → Doc → Result (Message × Doc) StoreError
  pub get_list : List ℕ → Doc → Result (Option ListId) StoreError
  pub hydrate : ListId → ℕ → Doc → Result Message StoreError
  pub created_at : Message → ℕ

pub record ChatRepository (Key Doc Heads State : Type 0) : Type 0 where
  pub stored : Repo Key Doc Heads
  pub sync_state : State
  pub synced : Bool
  pub woken : List Bool

abbrev pub is_none : {A : Type 0} → Option A → Bool
is_none none = true
is_none (some _) = false

abbrev same_flag : Bool → Bool → Bool
same_flag true b = b
same_flag false true = false
same_flag false false = true

-- The watch channel wakes its receivers only if the value changes.
unfoldable pub set_synced :
    {Key Doc Heads State : Type 0} (b : Bool)
    → ChatRepository Key Doc Heads State
    → ChatRepository Key Doc Heads State
set_synced b r = if same_flag r.synced b then r else record r { synced = b; woken = b ∷ r.woken }

-- What `receive_sync_message` answers with, for what came in and what the document generates.
abbrev pub final_message : {Msg : Type 0} → Option Msg → Option Msg → Option (Option Msg)
final_message none none = none
final_message none (some out) = some (some out)
final_message (some _) out = some out

-- An operation's result, the repository and the tables.
abbrev pub Outcome : Type 0 → Type 0 → Type 0 → Type 0 → Type 0 → Type 0
Outcome Key Doc Heads State A = Result A StoreError × ChatRepository Key Doc Heads State × Db Key

module _ {Doc State Msg Message Content ListId : Type 0}
    (docs : Documents Doc State Msg Message Content ListId) where
  open docs use {get_list, hydrate, created_at}

  -- A message of a peer's list, where the patch put one.
  unfoldable pub patched : Doc → List Prop → Result (Option Message) StoreError
  patched doc (map_key key ∷ seq index ∷ path) = elim (strip_prefix list_prefix key) [
    | none ↦ ok none
    | some peer_id ↦ do
      list ← get_list (list_prefix ++ peer_id) doc
      elim list [ none ↦ ok none | some id ↦ hydrate id index doc >>= λ m. ok (some m) ]
  ]
  patched doc _ = ok none

  abbrev cons_some : Option Message → List Message → List Message
  cons_some none ms = ms
  cons_some (some m) ms = m ∷ ms

  unfoldable pub collect : Doc → List (List Prop) → Result (List Message) StoreError
  unfolding patched
  collect doc [] = ok []
  collect doc (p ∷ ps) = do m ← patched doc p; ms ← collect doc ps; ok (cons_some m ms)

  -- `sort_by_key(|m| m.created_at)`, the sort being stable.
  abbrev pub earlier : Message → Message → Bool
  earlier m n = leb (created_at m) (created_at n)

  -- `extract_new_messages_from_patches`.
  unfoldable pub extract_new_messages_from_patches :
      Doc → List (List Prop) → Result (List Message) StoreError
  unfolding collect
  extract_new_messages_from_patches doc patches = do ms ← collect doc patches; ok (sort earlier ms)

module _ {Key Doc Heads State Msg Message Content ListId : Type 0}
    (docs : Documents Doc State Msg Message Content ListId) where
  open docs use {new_state, generate}

  -- `generate_sync_message`.
  unfoldable pub generate_sync_message :
      ChatRepository Key Doc Heads State → Option Msg × ChatRepository Key Doc Heads State
  unfolding set_synced
  generate_sync_message r =
      let (message, st) = generate r.stored.doc r.sync_state in
      (message, set_synced (is_none message) (record r { sync_state = st }))

  -- `reset_sync_state`.
  unfoldable pub reset_sync_state :
      ChatRepository Key Doc Heads State → ChatRepository Key Doc Heads State
  reset_sync_state r = record r { sync_state = new_state }

module _ {Key Doc Heads State Msg Message Content ListId : Type 0} (crdt : Crdt Doc Heads)
    (docs : Documents Doc State Msg Message Content ListId) where
  open docs use {receive, append_message}

  -- `persist_chat` on the whole repository, and what follows where it succeeds.
  abbrev pub persisted :
      (A : Type 0)
      → Bool
      → ChatRepository Key Doc Heads State
      → Db Key
      → (ChatRepository Key Doc Heads State → Db Key → Outcome Key Doc Heads State A)
      → Outcome Key Doc Heads State A
  persisted A refused r db next = elim (persist_chat crdt refused r.stored db) [
    | err e ↦ (err e, r, db)
    | ok p ↦ next (record r { stored = p.0 }) p.1
  ]

  abbrev answer :
      Option Msg
      → List Message
      → ChatRepository Key Doc Heads State
      → Db Key
      → Outcome Key Doc Heads State (List Message × Option (Option Msg))
  answer in_msg new_messages r db =
      let (out, r') = generate_sync_message docs r in
      (ok (new_messages, final_message in_msg out), r', db)

  abbrev pub extracted :
      Msg
      → List (List Prop)
      → ChatRepository Key Doc Heads State
      → Db Key
      → Outcome Key Doc Heads State (List Message × Option (Option Msg))
  extracted msg patches r db = elim (extract_new_messages_from_patches docs r.stored.doc patches) [
    | err e ↦ (err e, r, db)
    | ok new_messages ↦ answer (some msg) new_messages r db
  ]

  -- `receive_sync_message` after automerge has taken the message.
  abbrev pub received :
      Bool
      → Msg
      → ChatRepository Key Doc Heads State
      → Db Key
      → Result (List (List Prop)) StoreError × Doc × State
      → Outcome Key Doc Heads State (List Message × Option (Option Msg))
  received refused msg r db (err e, doc, st) =
      (err e, record r { stored = record r.stored { doc = doc }; sync_state = st }, db)
  received refused msg r db (ok patches, doc, st) =
      persisted (List Message × Option (Option Msg)) refused
        (record r { stored = record r.stored { doc = doc }; sync_state = st }) db
        (extracted msg patches)

  -- `receive_sync_message`; `refused` says whether the database refuses the row.
  unfoldable pub receive_sync_message :
      Bool
      → Option Msg
      → ChatRepository Key Doc Heads State
      → Db Key
      → Outcome Key Doc Heads State (List Message × Option (Option Msg))
  unfolding generate_sync_message extract_new_messages_from_patches persist_chat
  receive_sync_message refused none r db = answer none [] r db
  receive_sync_message refused (some msg) r db =
      received refused msg r db (receive msg r.stored.doc r.sync_state)

  abbrev pub added :
      Message
      → ChatRepository Key Doc Heads State
      → Db Key
      → Outcome Key Doc Heads State (Message × Option Msg)
  added message r db = let (out, r') = generate_sync_message docs r in (ok (message, out), r', db)

  -- `add_message` after the transaction on the document; one that fails changes nothing.
  abbrev pub appended :
      Bool
      → ChatRepository Key Doc Heads State
      → Db Key
      → Result (Message × Doc) StoreError
      → Outcome Key Doc Heads State (Message × Option Msg)
  appended refused r db (err e) = (err e, r, db)
  appended refused r db (ok (message, doc)) =
      persisted (Message × Option Msg) refused (record r { stored = record r.stored { doc = doc } })
        db (added message)

  -- `add_message`, with the message that `append_message` makes of the content.
  unfoldable pub add_message :
      Bool
      → Content
      → ChatRepository Key Doc Heads State
      → Db Key
      → Outcome Key Doc Heads State (Message × Option Msg)
  unfolding generate_sync_message persist_chat
  add_message refused content r db = appended refused r db (append_message content r.stored.doc)

  -- `reset_doc_state_to_persisted`, for what `get_persisted_doc_state` returns.
  unfoldable pub reset_doc_state_to_persisted :
      Result ((Doc × Heads) × Db Key) StoreError
      → ChatRepository Key Doc Heads State
      → Db Key
      → Outcome Key Doc Heads State (Unit {0})
  unfolding reset_sync_state
  reset_doc_state_to_persisted (err e) r db = (err e, r, db)
  reset_doc_state_to_persisted (ok ((doc, heads), db')) r db = (
    ok tt,
    reset_sync_state docs
        (record r { stored = record r.stored { doc = doc; last_saved_heads = heads } }),
    db',
  )
