-- ===== src/App/Calls/Examples.antt =====
-- The theorem on invites at concrete peers, whose ids are numbers, and tests of the other calls.
use tryst_core_portfolio.Prelude.{
  ℕ, true, false, List, [], ◌∷◌, Option, none, some, Result, ok, err, ◌≡◌, refl, ◌⊎◌, ℕ_discrete,
}
use Prim.Native.String.{String}
use tryst_core_portfolio.Failure.{LibError, from_lib_error}
use tryst_core_portfolio.App.{AppActor, get}
use tryst_core_portfolio.App.Keys.{Hex, KeyError, secret_key_from_hex_lower, wrong_length}
use tryst_core_portfolio.App.Calls.{
  sealed, Meets, create_tryst_invite, receive_tryst_invite, Handle, shutdown,
}
use tryst_core_portfolio.App.Calls.Invites.{receive-create_tryst_invite}

abbrev letter : ℕ → List ℕ
letter n = n ∷ []

abbrev from_letter : List ℕ → Option ℕ
from_letter [] = none
from_letter (n ∷ _) = some n

abbrev no_id : List ℕ → String
no_id t = "no id"

abbrev bob : AppActor ℕ
bob = record {
  secret_key_public = 1;
  endpoint_id = 1;
  registry = record { chat_managers = []; next_id = 40; spawned = [] };
  answers = [];
  shut = [];
}

abbrev opens : Meets ℕ
opens = record { respond_to = 9; opened = ok tt; others = λ r. r }

receive-create_tryst_invite_example :
    (invite : List ℕ) × (create_tryst_invite letter from_letter 2 (sealed (letter 1)) ≡ ok invite)
    × (((receive_tryst_invite letter from_letter ℕ_discrete (λ _. true) no_id opens invite bob).0
            ≡ ok tt)
          × ((i : ℕ) × (get ℕ_discrete
                  (record { my_id = 1; remote_id = 2 })
                  (receive_tryst_invite letter from_letter ℕ_discrete
                    (λ _. true)
                    no_id
                    opens
                    invite
                    bob).1.registry.chat_managers
                ≡ some i))
        ⊎ (get ℕ_discrete (record { my_id = 1; remote_id = 2 }) [] ≡ none)
          × ((e : LibError) × (opens.opened ≡ err e)
              × ((receive_tryst_invite letter from_letter ℕ_discrete
                    (λ _. true)
                    no_id
                    opens
                    invite
                    bob).0
                  ≡ err (from_lib_error e))))
receive-create_tryst_invite_example =
    receive-create_tryst_invite letter from_letter ℕ_discrete (λ _. true) no_id 2 1 refl refl opens
      bob

abbrev plain : Hex
plain = record { encode = λ bs. bs; decode = λ bs. some bs }

abbrev wrong : Result (List ℕ) KeyError
wrong = err wrong_length

short_key : secret_key_from_hex_lower plain (λ k. k) (λ bs. bs) (7 ∷ []) ≡ wrong
unfolding secret_key_from_hex_lower
short_key = refl

abbrev started : Handle
started = record { cancelled = false; join_handle = some 5; awaited = [] }

-- Two shutdowns wait for the task once.
shut_twice :
    shutdown false (shutdown false started)
    ≡ record { cancelled = true; join_handle = none; awaited = 5 ∷ [] }
unfolding shutdown
shut_twice = refl
