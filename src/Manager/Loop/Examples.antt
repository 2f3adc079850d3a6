-- ===== src/Manager/Loop/Examples.antt =====
-- The theorems on the end of the manager's task at concrete inputs.
use tryst_core_portfolio.Prelude.{ℕ, true, List, [], ◌∷◌, ◌++◌, ◌≡◌, refl, none, ok, false}
use tryst_core_portfolio.Chat.Connection.{new, InternalConnState, ChatConnectionState}
use tryst_core_portfolio.Chat.Connection.Numbers.{number_order}
use tryst_core_portfolio.Chat.Connection.Tasks.{session}
use tryst_core_portfolio.Manager.Repository.{Repository}
use tryst_core_portfolio.Manager.Actor.{Manager, continues, returns_ok}
use tryst_core_portfolio.Manager.Loop.{
  Branch, cancelled, ticks, sync_status_changes, turn, turns, run, task,
}
use tryst_core_portfolio.Manager.Loop.Shutdown.{task_closes, cancellation_ends, Closes}

-- A document that never has anything to say.
abbrev quiet : Repository
quiet = record {
  Doc = ℕ;
  Content = ℕ;
  Message = ℕ;
  SyncMsg = ℕ;
  generate_sync_message = λ d. (none, d);
  receive_sync_message = λ msg d. (ok ([], none), d);
  add_message = λ c d. (ok (c, none), d);
  get_all_messages = λ d. ok [];
  reset_doc_state_to_persisted = λ d. (ok tt, d);
  reset_sync_state = λ d. d;
  sync_status = λ d. true;
  encode = λ m. m ∷ [];
  decode = λ bs. none;
}

abbrev idle_manager : Manager ℕ quiet
idle_manager = record {
  doc = 0;
  session = session (new 1 2);
  msg_receiver = none;
  reset_doc_state = false;
  calls = [];
  answers = [];
}

abbrev some_turns : List (Branch ℕ quiet)
some_turns = ticks ∷ sync_status_changes ∷ []

runs_on : (run ℕ quiet (λ _. true) some_turns idle_manager).1 ≡ continues
unfolding run turns turn
runs_on = refl

cancellation_ends_example :
    ((task ℕ quiet (λ _. true) (some_turns ++ cancelled ∷ ticks ∷ []) idle_manager).1 ≡ returns_ok)
    × Closes ℕ quiet
        (run ℕ quiet (λ _. true) some_turns idle_manager).0
        (task ℕ quiet (λ _. true) (some_turns ++ cancelled ∷ ticks ∷ []) idle_manager).0
cancellation_ends_example =
    cancellation_ends ℕ quiet (λ _. true) some_turns (ticks ∷ []) idle_manager runs_on

stops : (task ℕ quiet (λ _. true) (cancelled ∷ []) idle_manager).1 ≡ returns_ok
unfolding task run turn
stops = refl

task_closes_example :
    ((task ℕ quiet (λ _. true) (cancelled ∷ []) idle_manager).0.session.conn.state
      ≡ InternalConnState.disconnected)
    × ((task ℕ quiet (λ _. true) (cancelled ∷ []) idle_manager).0.session.conn.published
        ≡ ChatConnectionState.disconnected)
task_closes_example =
    task_closes ℕ quiet (λ _. true) (cancelled ∷ []) idle_manager (rw stops (λ e. cc))
