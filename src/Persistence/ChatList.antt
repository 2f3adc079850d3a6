-- ===== src/Persistence/ChatList.antt =====
-- `list_chats_remote_peers_ids` of src/persistence.rs: whom there is a chat with, by the texts of the
-- chat ids in the table `chats`.
--
-- The text of an endpoint id and its parser are the iroh library's. `refused` says that the database
-- refuses the query.
pub mod Peers
mod Examples
use tryst_core_portfolio.Prelude.{
  Text, same_text, ℕ, Bool, true, false, List, [], ◌∷◌, Option, none, some, if◌then◌else◌, ◌==◌,
  not, sort, Result, ok, err, ◌>>=◌, map, ite, ◌≡◌,
}
use tryst_core_portfolio.Chat.Connection.{EndpointOrder}
use tryst_core_portfolio.Persistence.Snapshots.{StoreError, sqlx, unexpected}

abbrev in_front : ℕ → Option (Text × Text) → Option (Text × Text)
in_front c none = none
in_front c (some p) = some (c ∷ p.0, p.1)

-- `split_once`.
unfoldable pub split_once : ℕ → Text → Option (Text × Text)
split_once sep [] = none
split_once sep (c ∷ cs) =
    let rest = split_once sep cs in if c == sep then some ([], cs) else in_front c rest

-- The other half of an id that has the own one as just one half.
abbrev pub other_half : Bool → Bool → Text × Text → Option Text
other_half true false p = some p.1
other_half false true p = some p.0
other_half true true p = none
other_half false false p = none

-- The part of a chat id that names the peer; a chat id without one is skipped.
unfoldable pub remote_part : Text → Text → Option Text
unfolding split_once
remote_part my_id chat_id = elim (split_once 95 chat_id) [
  | none ↦ none
  | some p ↦ other_half (same_text p.0 my_id) (same_text p.1 my_id) p
]

module _ {EndpointId : Type 0} (dec : Discrete EndpointId) where
  abbrev pub cons_new : EndpointId → List EndpointId → List EndpointId
  cons_new x [] = x ∷ []
  cons_new x (y ∷ ys) = ite (dec x y) (y ∷ ys) (x ∷ y ∷ ys)

  -- `dedup`: of equal neighbours one stays.
  unfoldable pub dedup : List EndpointId → List EndpointId
  dedup [] = []
  dedup (x ∷ xs) = cons_new x (dedup xs)

module _ {EndpointId : Type 0} where
  -- `<=` of the order that the ids have.
  abbrev pub id_leb : ⦃order : EndpointOrder EndpointId⦄ → EndpointId → EndpointId → Bool
  id_leb ⦃order⦄ a b = not (order.lt b a)

  -- The loop over the chat ids.
  unfoldable pub peer_ids :
      (Text → Option EndpointId) → Text → List Text → Result (List EndpointId) StoreError
  unfolding remote_part
  peer_ids from_str my_id [] = ok []
  peer_ids from_str my_id (chat_id ∷ rest) =
      let others = peer_ids from_str my_id rest in
      elim (remote_part my_id chat_id) [
        | none ↦ others
        | some remote ↦ elim (from_str remote) [
          | none ↦ err unexpected
          | some id ↦ others >>= λ ids. ok (id ∷ ids)
        ]
      ]

-- `list_chats_remote_peers_ids`.
unfoldable pub list_chats_remote_peers_ids :
    {EndpointId : Type 0} ⦃order : EndpointOrder EndpointId⦄ (dec : Discrete EndpointId)
    → (Text → Option EndpointId)
    → (refused : Bool) → Text
    → List Text
    → Result (List EndpointId) StoreError
unfolding peer_ids dedup
list_chats_remote_peers_ids dec from_str refused my_id chat_ids =
    if refused
    then err sqlx
    else (peer_ids from_str my_id chat_ids >>= λ ids. ok (dedup dec (sort id_leb ids)))
