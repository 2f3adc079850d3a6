-- ===== src/Manager/Storage/Reports/Examples.antt =====
-- The theorem on the sync status at two concrete managers: each tells its document once, and takes
-- what the other one tells.
use tryst_core_portfolio.Prelude.{
  ℕ, ◌≡◌, refl, Bool, true, false, List, [], ◌∷◌, ◌++◌, sort, drop, Option, some, none, ok, Text,
  ℕ_discrete,
}
use tryst_core_portfolio.Chat.Message.{SyncMessage, sync_message, sync}
use tryst_core_portfolio.Chat.Connection.{
  ChatConnectionHandle, ConnOrigin, ChatConnectionState, InternalConnState,
}
use tryst_core_portfolio.Chat.Connection.Numbers.{number_order}
use tryst_core_portfolio.Chat.Connection.Tasks.{send_message, send_on, receive, receive_on}
use tryst_core_portfolio.Persistence.Snapshots.{no_faults, persist_chat, insert_log}
use tryst_core_portfolio.Persistence.Snapshots.Numbers.{numbers}
use tryst_core_portfolio.Persistence.Sync
use tryst_core_portfolio.Persistence.Sync.{
  ChatRepository, generate_sync_message, receive_sync_message, set_synced,
  extract_new_messages_from_patches, collect,
}
use tryst_core_portfolio.Manager.Repository.{Repository}
use tryst_core_portfolio.Manager.Actor.{
  Manager, handle_connection_state_change, send_generated, notify, handle_outgoing_sync_message,
  handle_incomming_message, receive_decoded, after_receive, pass_chunks, reply,
}
use tryst_core_portfolio.Manager.Loop.{new, incoming, turn, take_incoming}
use tryst_core_portfolio.Manager.Exchange.{
  posted, in_order, Net, start, Reach, here, later, at_left, at_right, takes,
}
use tryst_core_portfolio.Manager.Storage.{Syncing, World, repository}
use tryst_core_portfolio.Manager.Storage.Examples.{counting, no_messages, fresh, silent}
use tryst_core_portfolio.Manager.Storage.Reports.{repositories_end_in_sync}

abbrev telling : Syncing (List ℕ) Bool (List ℕ)
telling = record {
  new_state = false;
  generate = λ d told. elim told [ false ↦ (some d, true) | true ↦ (none, true) ];
  receive = λ msg d told. (ok [], d ++ msg, told);
  encode = λ msg. msg;
  decode = λ bytes. some bytes;
}

abbrev repo : Text → Repository
repo peer = repository counting no_messages telling peer ℕ_discrete numbers fresh silent

abbrev world :
    (peer : Text) → List ℕ → World counting no_messages telling peer ℕ_discrete numbers fresh silent
world peer doc = record {
  repo = record {
    stored = record { chat_id = 7; doc = doc; last_saved_heads = 0 };
    sync_state = true;
    synced = false;
    woken = [];
  };
  db = record { chats = []; chat_log = []; next_id = 1 };
  refused = λ t. false;
  faults = λ t. no_faults;
  time = 0;
}

abbrev handle : ℕ → ChatConnectionHandle ℕ
handle remote = record {
  id = 30;
  origin = ConnOrigin.dial;
  remote = remote;
  connection = 31;
  tx = 32;
  rx = 33;
  cancel_token = 34;
}

abbrev manager : (peer : Text) → ℕ → ℕ → List ℕ → Manager ℕ (repo peer)
manager peer local remote doc = new ℕ (repo peer) (world peer doc) (record {
  conn = record {
    local_id = local;
    remote_id = remote;
    state = InternalConnState.connected (handle remote);
    published = ChatConnectionState.connected 30;
    notified = [];
    cancelled = [];
  };
  starting = 0;
  dialing = 0;
  disconnects = [];
  sent = [];
})

abbrev on : ℕ → Bool
on tx = true

abbrev alice : Manager ℕ (repo [])
alice = manager [] 1 2 (5 ∷ [])

abbrev bob : Manager ℕ (repo (1 ∷ []))
bob = manager (1 ∷ []) 2 1 (6 ∷ 7 ∷ [])

abbrev Pair : Type 0
Pair = Net ℕ (repo []) (repo (1 ∷ []))

abbrev at_start : Pair
at_start = start on on alice bob

abbrev told_alice : Option SyncMessage
told_alice = some (sync_message (6 ∷ 7 ∷ []))

abbrev told_bob : Option SyncMessage
told_bob = some (sync_message (5 ∷ []))

-- The left side after it took a message.
abbrev left_takes : Option SyncMessage → Manager ℕ (repo []) → Manager ℕ (repo [])
left_takes bytes m = (turn ℕ (repo []) on (incoming (λ _. some (sync bytes))) m).0

abbrev right_takes : Option SyncMessage → Manager ℕ (repo (1 ∷ [])) → Manager ℕ (repo (1 ∷ []))
right_takes bytes m = (turn ℕ (repo (1 ∷ [])) on (incoming (λ _. some (sync bytes))) m).0

-- A delivery to the left side, with what it posts.
abbrev left_delivery : Option SyncMessage → Pair → Pair
left_delivery bytes n =
    let m = left_takes bytes n.left in
    record {
      left = m;
      right = n.right;
      to_left = drop 1 n.to_left;
      to_right = n.to_right ++ posted n.left.session m.session;
    }

abbrev right_delivery : Option SyncMessage → Pair → Pair
right_delivery bytes n =
    let m = right_takes bytes n.right in
    record {
      left = n.left;
      right = m;
      to_left = n.to_left ++ posted n.right.session m.session;
      to_right = drop 1 n.to_right;
    }

-- Each side takes what the other one told, and then the answer to its own message.
abbrev second : Pair
second = right_delivery told_bob (left_delivery told_alice at_start)

abbrev at_end : Pair
at_end = right_delivery none (left_delivery none second)

exchange : Reach on on at_start at_end
unfolding turn send_message send_on handle_connection_state_change send_generated
    generate_sync_message notify handle_outgoing_sync_message set_synced receive receive_on
    take_incoming handle_incomming_message receive_decoded after_receive pass_chunks reply
    persist_chat insert_log receive_sync_message extract_new_messages_from_patches collect
    Sync.reset_sync_state sort posted in_order
exchange =
    later
      (later
        (later
          (later here
            (at_left (takes told_alice [] (some (6 ∷ 7 ∷ [])) [] (some none) _ refl refl refl)))
          (at_right
            (takes told_bob (sync none ∷ []) (some (5 ∷ [])) [] (some none) _ refl refl refl)))
        (at_left (takes none [] none [] none _ refl refl refl)))
      (at_right (takes none [] none [] none _ refl refl refl))

nothing_left : (at_end.to_left ≡ []) × (at_end.to_right ≡ [])
unfolding turn send_message send_on handle_connection_state_change send_generated
    generate_sync_message notify handle_outgoing_sync_message set_synced receive receive_on
    take_incoming handle_incomming_message receive_decoded after_receive pass_chunks reply
    persist_chat insert_log receive_sync_message extract_new_messages_from_patches collect
    Sync.reset_sync_state sort posted in_order
nothing_left = (refl, refl)

repositories_end_in_sync_example :
    (at_end.left.doc.repo.synced ≡ true) × (at_end.right.doc.repo.synced ≡ true)
repositories_end_in_sync_example =
    repositories_end_in_sync counting no_messages telling ℕ_discrete numbers fresh silent []
      (1 ∷ []) on on alice bob at_end
      (record { handle = handle 2; holds = refl; opened = refl; shown = refl })
      (record { handle = handle 1; holds = refl; opened = refl; shown = refl }) exchange
      nothing_left.0 nothing_left.1
