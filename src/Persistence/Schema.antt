-- ===== src/Persistence/Schema.antt =====
-- The layout of a chat document, src/persistence/schema.rs: at the root one list of messages for each
-- peer, under a key with a prefix.
--
-- automerge is the parameter `Automerge`: its reads and writes on a document, each of which may fail.
-- A text is the list of its code points, and a time stamp an i64 that is moved up to be a natural
-- number.
pub mod Objects
pub mod Hydrated
mod Examples
use tryst_core_portfolio.Prelude.{
  Text, ℕ, Bool, true, false, List, [], ◌∷◌, ◌++◌, Option, none, some, if◌then◌else◌, strip_prefix,
  Result, ok, ◌>>=◌,
}
use tryst_core_portfolio.Persistence.Snapshots.{StoreError}

-- `ChatMessageContent`.
pub data ChatMessageContent : Type 0 where
  text : Text → ChatMessageContent

pub record ChatMessage : Type 0 where
  pub id : Text
  pub sender_node_id : Text
  pub content : ChatMessageContent
  pub created_at : ℕ
  pub updated_at : ℕ

-- A value that is put into a map.
pub data Scalar : Type 0 where
  str : Text → Scalar
  int : ℕ → Scalar

pub record Automerge (Doc ObjId : Type 0) : Type 0 where
  pub keys : Doc → List Text
  pub get : Text → Doc → Result (Option ObjId) StoreError
  pub list_length : ObjId → Doc → ℕ
  pub put_list : Text → Doc → Result (ObjId × Doc) StoreError
  pub insert_map : ObjId → ℕ → Doc → Result (ObjId × Doc) StoreError
  pub put_map : ObjId → Text → Doc → Result (ObjId × Doc) StoreError
  pub put : ObjId → Text → Scalar → Doc → Result Doc StoreError

-- "msgs_".
abbrev pub list_prefix : Text
list_prefix = 109 ∷ 115 ∷ 103 ∷ 115 ∷ 95 ∷ []

-- "id", "sender_node_id", "content", "Text", "created_at" and "updated_at".
abbrev pub id_key : Text
id_key = 105 ∷ 100 ∷ []

abbrev pub sender_key : Text
sender_key = 115 ∷ 101 ∷ 110 ∷ 100 ∷ 101 ∷ 114 ∷ 95 ∷ 110 ∷ 111 ∷ 100 ∷ 101 ∷ 95 ∷ 105 ∷ 100 ∷ []

abbrev pub content_key : Text
content_key = 99 ∷ 111 ∷ 110 ∷ 116 ∷ 101 ∷ 110 ∷ 116 ∷ []

abbrev pub content_text_key : Text
content_text_key = 84 ∷ 101 ∷ 120 ∷ 116 ∷ []

abbrev pub created_at_key : Text
created_at_key = 99 ∷ 114 ∷ 101 ∷ 97 ∷ 116 ∷ 101 ∷ 100 ∷ 95 ∷ 97 ∷ 116 ∷ []

abbrev pub updated_at_key : Text
updated_at_key = 117 ∷ 112 ∷ 100 ∷ 97 ∷ 116 ∷ 101 ∷ 100 ∷ 95 ∷ 97 ∷ 116 ∷ []

-- `Root::peer_list_key`.
abbrev pub peer_list_key : Text → Text
peer_list_key peer_id = list_prefix ++ peer_id

abbrev pub has_prefix : Text → Bool
has_prefix key = elim (strip_prefix list_prefix key) [ none ↦ false | some _ ↦ true ]

module _ {Doc ObjId : Type 0} (am : Automerge Doc ObjId) where
  open am use {keys, get, list_length, put_list, insert_map, put_map, put}

  -- `Root::ensure_peer_list`.
  unfoldable pub ensure_peer_list : Text → Doc → Result (ObjId × Doc) StoreError
  ensure_peer_list peer_id doc = do
    found ← get (peer_list_key peer_id) doc
    elim found [ some id ↦ ok (id, doc) | none ↦ put_list (peer_list_key peer_id) doc ]

  abbrev pub push_some : Option ObjId → List ObjId → List ObjId
  push_some none ids = ids
  push_some (some id) ids = id ∷ ids

  -- The loop of `Root::get_all_peer_lists`, over the keys that are left.
  unfoldable pub lists_at : List Text → Doc → Result (List ObjId) StoreError
  lists_at [] doc = ok []
  lists_at (key ∷ rest) doc =
      let others = lists_at rest doc in
      if has_prefix key
      then (get key doc >>= λ found. others >>= λ ids. ok (push_some found ids))
      else others

  -- `Root::get_all_peer_lists`.
  unfoldable pub get_all_peer_lists : Doc → Result (List ObjId) StoreError
  unfolding lists_at
  get_all_peer_lists doc = lists_at (keys doc) doc

  -- `Root::get_peer_list`.
  unfoldable pub get_peer_list : Text → Doc → Result (Option ObjId) StoreError
  get_peer_list peer_id doc = get (peer_list_key peer_id) doc

  put_content : ObjId → ChatMessageContent → Doc → Result Doc StoreError
  put_content content_id (text value) doc = put content_id content_text_key (str value) doc

  -- `MessageListId::append_message`.
  unfoldable pub append_message : ObjId → ChatMessage → Doc → Result Doc StoreError
  unfolding put_content
  append_message list msg doc = do
    made ← insert_map list (list_length list doc) doc
    doc1 ← put made.0 id_key (str msg.id) made.1
    doc2 ← put made.0 sender_key (str msg.sender_node_id) doc1
    doc3 ← put made.0 created_at_key (int msg.created_at) doc2
    doc4 ← put made.0 updated_at_key (int msg.updated_at) doc3
    content ← put_map made.0 content_key doc4
    put_content content.0 msg.content content.1

  -- The transaction of `ChatRepository::add_message`, and the message that it appends.
  unfoldable pub transact_message :
      Text → Text → ℕ → ChatMessageContent → Doc → Result (ChatMessage × Doc) StoreError
  unfolding ensure_peer_list append_message
  transact_message new_msg_id my_peer_id now msg doc =
      let new_msg : ChatMessage = record {
        id = new_msg_id;
        sender_node_id = my_peer_id;
        content = msg;
        created_at = now;
        updated_at = now;
      } in
      do
        found ← ensure_peer_list my_peer_id doc
        doc' ← append_message found.0 new_msg found.1
        ok (new_msg, doc')
