-- ===== src/App/Examples.antt =====
-- The theorems on the application at concrete inputs; an endpoint id is a number.
use tryst_core_portfolio.Prelude.{
  ℕ, true, List, [], ◌∷◌, Option, none, some, ◌≡◌, refl, Result, ok, err, ℕ_discrete,
}
use Prim.Native.String.{String}
use tryst_core_portfolio.Failure.{LibError, endpoint_startup, chat_not_found}
use tryst_core_portfolio.Chat.Connection.{ChatConnectionHandle, accept}
use tryst_core_portfolio.App.{
  ChatId, Registry, AppActor, handle_chat_manager, Event, shut_down, cancelled, accept_failed,
  get_chat_manager, accepted, run,
}
use tryst_core_portfolio.Chat.Connection.Numbers.{number_order}
use tryst_core_portfolio.App.Managers.{same_manager}
use tryst_core_portfolio.App.Requests.{answered, run-answers}

abbrev no_managers : Registry ℕ
no_managers = record { chat_managers = []; next_id = 40; spawned = [] }

abbrev actor : AppActor ℕ
actor = record {
  secret_key_public = 1;
  endpoint_id = 1;
  registry = no_managers;
  answers = [];
  shut = [];
}

abbrev chat : ChatId ℕ
chat = record { my_id = 1; remote_id = 2 }

abbrev incoming : ChatConnectionHandle ℕ
incoming = record {
  id = 5;
  origin = accept;
  remote = 2;
  connection = 6;
  tx = 7;
  rx = 8;
  cancel_token = 9;
}

abbrev opens : Result (Unit {0}) LibError
opens = ok tt

abbrev stay : Registry ℕ → Registry ℕ
stay r = r

abbrev some_events : List (Event ℕ)
some_events =
    get_chat_manager 70 3 (err endpoint_startup) stay
    ∷ accepted incoming (ok tt) stay
    ∷ accept_failed
    ∷ get_chat_manager 71 2 (ok tt) stay
    ∷ cancelled
    ∷ []

same_manager_example :
    (handle_chat_manager ℕ_discrete
      (λ _. true)
      1
      (err endpoint_startup)
      stay
      chat
      (some incoming)
      (run ℕ_discrete
        (λ _. true)
        some_events
        (record actor {
          registry =
              (handle_chat_manager ℕ_discrete (λ _. true) 1 opens stay chat none no_managers).0;
        })).0.registry).1
    ≡ ok 40
unfolding handle_chat_manager
same_manager_example =
    same_manager ℕ_discrete (λ _. true) 1 opens (err endpoint_startup) stay stay chat none
      (some incoming) actor some_events 40
      ((λ k i r h. h), ((λ k i r h. h), (tt, ((λ k i r h. h), (tt, tt))))) refl

run-answers_example :
    (answered (run ℕ_discrete (λ _. true) some_events actor).0.answers ≡ 70 ∷ 71 ∷ [])
    × ((run ℕ_discrete (λ _. true) some_events actor).1 ≡ shut_down)
run-answers_example = run-answers ℕ_discrete (λ _. true) some_events actor

abbrev two : Result ℕ String
two = ok 2

abbrev is_sent : Result (Unit {0}) String
is_sent = ok tt

abbrev refuse : ℕ → Option (Result ℕ LibError)
refuse remote = some (err (chat_not_found "7"))
