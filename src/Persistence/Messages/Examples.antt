-- ===== src/Persistence/Messages/Examples.antt =====
-- The theorems on queries for messages, on a document with two peers' lists.
use tryst_core_portfolio.Prelude.{
  Text, ℕ, zero, suc, List, [], ◌∷◌, Option, none, some, ◌≡◌, refl, arith, sort, flatten, length,
  Result, ok, err,
}
use tryst_core_portfolio.Persistence.Snapshots.{StoreError, unexpected}
use tryst_core_portfolio.Persistence.Schema.{ChatMessage, text, Automerge, get_all_peer_lists}
use tryst_core_portfolio.Persistence.Messages.{
  message_le, hydrate_from, get_messages, get_all_messages,
}
use tryst_core_portfolio.Persistence.Messages.Pages.{
  Holds, page, get_messages-page, get_all_messages_lem,
}

abbrev Doc : Type 0
Doc = List (List ChatMessage)

abbrev nth : {A : Type 0} → ℕ → List A → Option A
nth n [] = none
nth zero (x ∷ xs) = some x
nth (suc n) (x ∷ xs) = nth n xs

abbrev message : ℕ → ℕ → ChatMessage
message n now = record {
  id = n ∷ [];
  sender_node_id = 97 ∷ [];
  content = text [];
  created_at = now;
  updated_at = now;
}

abbrev key_of : ℕ → Text
key_of n = 109 ∷ 115 ∷ 103 ∷ 115 ∷ 95 ∷ n ∷ []

abbrev list_of : Text → Doc → Result (Option ℕ) StoreError
list_of key doc = elim (nth 5 key) [ none ↦ ok none | some n ↦ ok (some n) ]

abbrev size_of : ℕ → Doc → ℕ
size_of n doc = elim (nth n doc) [ none ↦ 0 | some ms ↦ length ms ]

-- A document that is only read.
abbrev reader : Automerge Doc ℕ
reader = record {
  keys = λ doc. key_of 0 ∷ (120 ∷ []) ∷ key_of 1 ∷ [];
  get = list_of;
  list_length = size_of;
  put_list = λ key doc. err unexpected;
  insert_map = λ list index doc. err unexpected;
  put_map = λ id key doc. err unexpected;
  put = λ id key value doc. err unexpected;
}

abbrev hydrate : ℕ → ℕ → Doc → Result ChatMessage StoreError
hydrate n i doc = elim (nth n doc) [
  | none ↦ err unexpected
  | some ms ↦ elim (nth i ms) [ none ↦ err unexpected | some m ↦ ok m ]
]

abbrev both : Doc
both = (message 1 10 ∷ message 2 30 ∷ []) ∷ (message 3 20 ∷ message 4 30 ∷ message 5 40 ∷ []) ∷ []

found : get_all_peer_lists reader both ≡ ok (0 ∷ 1 ∷ [])
unfolding get_all_peer_lists
found = refl

both_held : Holds reader hydrate (0 ∷ 1 ∷ []) both both
unfolding hydrate_from
both_held = (refl, (refl, tt))

get_messages-page_example :
    get_messages reader hydrate 1 2 both ≡ ok (page 1 2 (sort message_le (flatten both)))
get_messages-page_example =
    get_messages-page reader hydrate 1 2 (0 ∷ 1 ∷ []) both both found both_held
      (((refl, tt), (tt, tt)), (((refl, (refl, tt)), ((refl, tt), (tt, tt))), tt)) (omega arith)

get_all_messages_lem_example :
    get_all_messages reader hydrate both ≡ ok (sort message_le (flatten both))
get_all_messages_lem_example =
    get_all_messages_lem reader hydrate (0 ∷ 1 ∷ []) both both found both_held (omega arith)

second_page : get_messages reader hydrate 1 2 both ≡ ok (message 2 30 ∷ message 4 30 ∷ [])
unfolding get_messages sort
second_page = refl

-- A list whose peer's clock was set back: the page of one message is not the most recent message.
abbrev set_back : Doc
set_back = (message 1 50 ∷ message 2 10 ∷ []) ∷ [] ∷ []

page_of_set_back : get_messages reader hydrate 0 1 set_back ≡ ok (message 2 10 ∷ [])
unfolding get_messages sort
page_of_set_back = refl
