-- ===== src/Persistence/ChatList/Examples.antt =====
-- The theorem on the list of peers at concrete rows; an id is a number, and its text one letter.
use tryst_core_portfolio.Prelude.{
  Text, ℕ, false, ◌+◌, ◌-◌, List, [], ◌∷◌, Option, none, some, ◌≡◌, ◌↔◌, ap, arith, refl, map, sort,
  In, ok, ℕ_discrete,
}
use tryst_core_portfolio.Chat.Connection.Numbers.{number_order}
use tryst_core_portfolio.App.Names.{display}
use tryst_core_portfolio.Persistence.ChatList.{dedup, list_chats_remote_peers_ids}
use tryst_core_portfolio.Persistence.ChatList.Peers.{
  IdTexts, Ascending, list_chats_remote_peers_ids_lem,
}

abbrev letter : ℕ → Text
letter e = (e + 96) ∷ []

abbrev from_letter : Text → Option ℕ
from_letter [] = none
from_letter (c ∷ []) = some (c - 96)
from_letter (c ∷ d ∷ cs) = none

letter_texts : IdTexts letter from_letter
letter_texts = record {
  reads = λ e. (let h : e + 96 - 96 ≡ e = omega arith in ap some h);
  no_separator = λ e. (λ h. omega arith, tt);
}

abbrev remotes : List ℕ
remotes = 5 ∷ 2 ∷ 7 ∷ 2 ∷ []

list_chats_remote_peers_ids_lem_example :
    (ids : List ℕ) × (list_chats_remote_peers_ids ℕ_discrete from_letter false
        (letter 3)
        (map (λ r. display letter (record { my_id = 3; remote_id = r })) remotes)
      ≡ ok ids)
    × ((x : ℕ) → In x remotes ↔ In x ids)
    × Ascending ids
list_chats_remote_peers_ids_lem_example =
    list_chats_remote_peers_ids_lem ℕ_discrete letter from_letter letter_texts 3 remotes
      (λ h. omega arith, (λ h. omega arith, (λ h. omega arith, (λ h. omega arith, tt))))

abbrev other_rows : List Text
other_rows = (100 ∷ 95 ∷ 99 ∷ []) ∷ (120 ∷ []) ∷ (99 ∷ 95 ∷ 99 ∷ []) ∷ (98 ∷ 95 ∷ 99 ∷ []) ∷ []

rows_without_a_peer :
    list_chats_remote_peers_ids ℕ_discrete from_letter false (letter 3) other_rows ≡ ok (2 ∷ 4 ∷ [])
unfolding list_chats_remote_peers_ids dedup sort ℕ_discrete
rows_without_a_peer = refl
