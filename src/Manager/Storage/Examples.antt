-- ===== src/Manager/Storage/Examples.antt =====
-- The theorem on the tables at a concrete manager, and the one on bad sync messages: a document is a list of numbers, a new message is
-- one number more, and a sync message the numbers to append.
use tryst_core_portfolio.Prelude.{
  ℕ, suc, zero, ◌≡◌, refl, sym, ap, ◌∙◌, true, false, List, [], ◌∷◌, ◌++◌, Option, some, none,
  length, ok, err, ℕ_discrete, append_assoc, append-nil, arith, Result, ◌⊎◌, inl, inr, ◌≤◌, ◌+◌,
  ◌*◌,
}
use Prim.Native.String.{String}
use tryst_core_portfolio.Chat.Connection
use tryst_core_portfolio.Chat.Connection.Numbers.{number_order}
use tryst_core_portfolio.Chat.Connection.Tasks.{session}
use tryst_core_portfolio.Persistence.Snapshots.{Db, no_faults, StoreError, find_document, log_rows}
use tryst_core_portfolio.Persistence.Snapshots.Numbers.{numbers, numbers_laws, Longer}
use tryst_core_portfolio.Persistence.Schema.{
  ChatMessage, ChatMessageContent, text, Automerge, transact_message,
}
use tryst_core_portfolio.Persistence.Sync.{ChatRepository, receive_sync_message}
use tryst_core_portfolio.Persistence.Sync.Reset.{new}
use tryst_core_portfolio.Persistence.Sync.Durable.{DocumentLaws}
use tryst_core_portfolio.Manager.Actor.{Manager, single}
use tryst_core_portfolio.Manager.Actor.Sync.{handle_all, failing_syncs_end}
use tryst_core_portfolio.Manager.Repository.{Repository}
use tryst_core_portfolio.Failure.{LibError}
use tryst_core_portfolio.Chat.Message.{ProtoMessage, sync, sync_message}
use tryst_core_portfolio.Manager.Loop.{Branch, ticks, outgoing, cancelled, task}
use tryst_core_portfolio.Manager.Storage.{Syncing, Draft, World, documents, repository}
use tryst_core_portfolio.Manager.Storage.Tables.{Holding, new-task}

abbrev pub counting : Automerge (List ℕ) ℕ
counting = record {
  keys = λ d. [];
  get = λ key d. ok (some 0);
  list_length = λ id d. length d;
  put_list = λ key d. ok (0, d);
  insert_map = λ id index d. ok (1, d ++ index ∷ []);
  put_map = λ id key d. ok (2, d);
  put = λ id key value d. ok d;
}

abbrev pub no_messages : ℕ → ℕ → List ℕ → Result ChatMessage StoreError
no_messages id index d = err StoreError.automerge

abbrev appending : Syncing (List ℕ) ℕ (List ℕ)
appending = record {
  new_state = 0;
  generate = λ d n. (none, n);
  receive = λ msg d n. (ok [], d ++ msg, n);
  encode = λ msg. msg;
  decode = λ bytes. some bytes;
}

appends_longer :
    (c : ChatMessageContent) (i : List ℕ) (now : ℕ) (m : ChatMessage) (d e : List ℕ)
    → transact_message counting i [] now c d ≡ ok (m, e)
    → Longer d e
unfolding transact_message
appends_longer (text _) i now m d e h = (length d ∷ [], ground arith)

laws_hold : DocumentLaws (documents counting no_messages appending []) Longer
laws_hold = record {
  extends_refl = λ d. ([], sym (append-nil d));
  extends_trans = λ d e f x y. (x.0 ++ y.0, y.1 ∙ ap (λ l. l ++ y.0) x.1 ∙ append_assoc d x.0 y.0);
  receive_extends = λ msg d st. (msg, refl);
  append_extends = λ draft m d e h. appends_longer draft.content draft.new_msg_id draft.now m d e h;
}

abbrev pub fresh : ℕ → Option (List ℕ)
fresh k = some []

abbrev pub silent : StoreError → String
silent e = ""

abbrev Example : Type 0
Example = World counting no_messages appending [] ℕ_discrete numbers fresh silent

-- The database refuses the second row.
abbrev world : Example
world = record {
  repo = record {
    stored = record { chat_id = 7; doc = 1 ∷ 2 ∷ 4 ∷ []; last_saved_heads = 3 };
    sync_state = 3;
    synced = false;
    woken = [];
  };
  db = record {
    chats = (7, 1 ∷ 2 ∷ []) ∷ [];
    chat_log = record { id = 1; chat_id = 7; content = 4 ∷ [] } ∷ [];
    next_id = 2;
  };
  refused = λ t. elim t [ zero ↦ false | suc _ ↦ true ];
  faults = λ t. no_faults;
  time = 0;
}

world-Holding :
    Holding counting no_messages appending [] ℕ_discrete numbers fresh silent numbers_laws laws_hold
      7
      (1 ∷ 2 ∷ 4 ∷ [])
      world
unfolding find_document ℕ_discrete log_rows
world-Holding = (
  1 ∷ 2 ∷ 4 ∷ [],
  ([], refl),
  record {
    chat = refl;
    holds = record {
      snapshot = 1 ∷ 2 ∷ [];
      base = 1 ∷ 2 ∷ [];
      found = refl;
      loads = refl;
      replays = refl;
    };
    heads = refl;
    extends = ([], refl);
    numbered = record { ascending = (tt, tt); below = (omega arith, tt) };
  },
)

abbrev manager :
    Manager ℕ (repository counting no_messages appending [] ℕ_discrete numbers fresh silent)
manager = record {
  doc = world;
  session = session (Connection.new 1 2);
  msg_receiver = none;
  reset_doc_state = false;
  calls = [];
  answers = [];
}

abbrev draft : Draft
draft = record { new_msg_id = 5 ∷ []; now = 6; content = text [] }

abbrev some_branches :
    List (Branch ℕ (repository counting no_messages appending [] ℕ_discrete numbers fresh silent))
some_branches =
    outgoing (some (single draft 40 true))
    ∷ ticks
    ∷ outgoing (some (single draft 41 true))
    ∷ cancelled
    ∷ []

abbrev after_task : Example
after_task =
    (task ℕ (repository counting no_messages appending [] ℕ_discrete numbers fresh silent)
      (λ _. true) some_branches manager).0.doc

new-task_example :
    Holding counting no_messages appending [] ℕ_discrete numbers fresh silent numbers_laws laws_hold
      7
      (1 ∷ 2 ∷ 4 ∷ [])
      after_task
    × (((e : StoreError) × (new ℕ_discrete numbers fresh
              (documents counting no_messages appending [])
              no_faults
              7
              after_task.db
            ≡ err e))
        ⊎ ((r : ChatRepository ℕ (List ℕ) ℕ ℕ) × (after : Db ℕ) × (new ℕ_discrete numbers fresh
                (documents counting no_messages appending [])
                no_faults
                7
                after_task.db
              ≡ ok (r, after))
            × Longer (1 ∷ 2 ∷ 4 ∷ []) r.stored.doc))
new-task_example =
    new-task counting no_messages appending [] ℕ_discrete numbers fresh silent numbers_laws
      laws_hold 7 (1 ∷ 2 ∷ 4 ∷ []) (λ _. true) some_branches manager no_faults world-Holding

-- A peer whose messages never fit the document.
abbrev refusing : Syncing (List ℕ) ℕ (List ℕ)
refusing = record {
  new_state = 0;
  generate = λ d n. (some d, suc n);
  receive = λ msg d n. (err StoreError.automerge, d, n);
  encode = λ msg. msg;
  decode = λ bytes. some bytes;
}

abbrev refusing_repository : Repository
refusing_repository = repository counting no_messages refusing [] ℕ_discrete numbers fresh silent

abbrev refusing_manager : Manager ℕ refusing_repository
refusing_manager = record {
  doc = record {
    repo = world.repo;
    db = world.db;
    refused = world.refused;
    faults = world.faults;
    time = 0;
  };
  session = session (Connection.new 1 2);
  msg_receiver = none;
  reset_doc_state = false;
  calls = [];
  answers = [];
}

abbrev bad_messages : List ProtoMessage
bad_messages =
    sync (some (sync_message (7 ∷ [])))
    ∷ sync none
    ∷ sync (some (sync_message (8 ∷ [])))
    ∷ sync (some (sync_message (9 ∷ [])))
    ∷ []

failing_syncs_end_example :
    (length
        (handle_all ℕ refusing_repository (λ _. true) bad_messages refusing_manager).session.sent
      ≤ suc 0 + 2 * 1)
    × ((false ≡ false)
        ⊎ (length
              (handle_all ℕ refusing_repository
                (λ _. true)
                bad_messages
                refusing_manager).session.sent
            ≤ 0 + 2 * 1))
unfolding receive_sync_message session
failing_syncs_end_example =
    failing_syncs_end ℕ refusing_repository (λ _. true) bad_messages refusing_manager
      (
        inr (λ msg e. (LibError.automerge "", refl)),
        (
          inl refl,
          (
            inr (λ msg e. (LibError.automerge "", refl)),
            (inr (λ msg e. (LibError.automerge "", refl)), tt),
          ),
        ),
      )
