-- ===== src/Chat/Protocol/Examples.antt =====
-- The theorems of the protocol actor at concrete inputs.
use tryst_core_portfolio.Prelude.{
  ℕ, ◌+◌, ◌≡◌, refl, ◌⊎◌, ◌↔◌, true, List, [], ◌∷◌, some, none, ok, err, length,
}
use tryst_core_portfolio.Chat.Connection.{accept, dial, ChatConnectionHandle}
use tryst_core_portfolio.Chat.Protocol.{
  Transport, Fresh, EstablishError, process_established_connection, open_message,
}
use tryst_core_portfolio.Chat.Protocol.Handshake.{
  Belongs, Opened, Failed, reasons, process_established_connection_lem, dial-accept,
}
use tryst_core_portfolio.Chat.Protocol.Actor.{
  accepts, dials, Turn, serves, ProtocolLog, running, run,
}
use tryst_core_portfolio.Chat.Protocol.Actor.Service.{senders, run_serves}

abbrev fresh_parts : Fresh
fresh_parts = record { id = 40; tx = 41; rx = 42; cancel_token = 43 }

abbrev silent : Transport ℕ
silent = record {
  remote = 2;
  connection = 9;
  stream_opens = true;
  open_read = none;
  open_write = true;
}

abbrev greeting : Transport ℕ
greeting = record silent { open_read = some open_message }

abbrev dialed_handle : ChatConnectionHandle ℕ
dialed_handle = record {
  id = 40;
  origin = dial;
  remote = 2;
  connection = 9;
  tx = 41;
  rx = 42;
  cancel_token = 43;
}

process_established_connection_lem_example :
    ((h : ChatConnectionHandle ℕ) × ((process_established_connection accept silent
          fresh_parts).result
        ≡ ok h)
      × Belongs accept silent fresh_parts h
      × Opened accept silent
      × ((process_established_connection accept silent fresh_parts).closed ≡ []))
    ⊎ ((e : EstablishError) × ((process_established_connection accept silent fresh_parts).result
          ≡ err e)
        × Failed e accept silent
        × ((process_established_connection accept silent fresh_parts).closed ≡ reasons e))
process_established_connection_lem_example =
    process_established_connection_lem accept silent fresh_parts

dial-accept_example :
    ((k : ChatConnectionHandle ℕ) × ((process_established_connection accept greeting
          fresh_parts).result
        ≡ ok k))
    ↔ ((true ≡ true)
        × (some open_message ≡ some (process_established_connection dial silent fresh_parts).sent))
unfolding process_established_connection
dial-accept_example = dial-accept silent greeting fresh_parts fresh_parts dialed_handle refl

abbrev served : List (Turn ℕ)
served =
    serves (dials 2 70) (record { connects = some silent; fresh = fresh_parts; heard = true })
    ∷ serves (accepts silent) (record { connects = none; fresh = fresh_parts; heard = true })
    ∷ serves (dials 3 71) (record { connects = none; fresh = fresh_parts; heard = true })
    ∷ []

abbrev empty_log : ProtocolLog ℕ
empty_log = record { accepted = []; answered = []; closes = [] }

run_serves_example :
    ((run served empty_log).1 ≡ running)
    × (senders (run served empty_log).0 ≡ 70 ∷ 71 ∷ [])
    × (length (run served empty_log).0.accepted ≡ 0 + 1)
run_serves_example = run_serves served empty_log (refl, (refl, (refl, tt)))
