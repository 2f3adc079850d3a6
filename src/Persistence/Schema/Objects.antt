-- ===== src/Persistence/Schema/Objects.antt =====
-- What src/persistence/schema.rs relies on in the objects of a document: what is written is read back.
use tryst_core_portfolio.Prelude.{
  Text, same_text, ℕ, suc, false, List, [], ◌∷◌, Option, some, Result, ok, ◌≡◌, ◌∙◌, ap, All,
}
use tryst_core_portfolio.Persistence.Snapshots.{StoreError}
use tryst_core_portfolio.Persistence.Schema.{text, ChatMessage, Scalar, str, int, Automerge}

-- The names that the derived `Hydrate` of `ChatMessage` looks for: those of its fields, and of the
-- variant of its content.
abbrev pub id_name : Text
id_name = b'i' ∷ b'd' ∷ []

abbrev pub sender_name : Text
sender_name =
    b's' ∷ b'e' ∷ b'n' ∷ b'd' ∷ b'e' ∷ b'r' ∷ b'_' ∷ b'n' ∷ b'o' ∷ b'd' ∷ b'e' ∷ b'_' ∷ b'i' ∷ b'd'
    ∷ []

abbrev pub created_at_name : Text
created_at_name = b'c' ∷ b'r' ∷ b'e' ∷ b'a' ∷ b't' ∷ b'e' ∷ b'd' ∷ b'_' ∷ b'a' ∷ b't' ∷ []

abbrev pub updated_at_name : Text
updated_at_name = b'u' ∷ b'p' ∷ b'd' ∷ b'a' ∷ b't' ∷ b'e' ∷ b'd' ∷ b'_' ∷ b'a' ∷ b't' ∷ []

abbrev pub content_name : Text
content_name = b'c' ∷ b'o' ∷ b'n' ∷ b't' ∷ b'e' ∷ b'n' ∷ b't' ∷ []

abbrev pub text_name : Text
text_name = b'T' ∷ b'e' ∷ b'x' ∷ b't' ∷ []

-- What can be read of a document: the entry of a list, and what a map has under a key.
pub record Reads (Doc ObjId : Type 0) : Type 0 where
  pub item : ObjId → ℕ → Doc → Option ObjId
  pub value : ObjId → Text → Doc → Option Scalar
  pub child : ObjId → Text → Doc → Option ObjId

module _ {Doc ObjId : Type 0} (am : Automerge Doc ObjId) (reads : Reads Doc ObjId) where
  open reads use {item, value, child}

  -- The lists, their entries, and what maps have under other keys than this are those of before.
  pub record Same (key : Text) (doc doc' : Doc) : Type 0 where
    pub lengths : (list : ObjId) → am.list_length list doc' ≡ am.list_length list doc
    pub roots : (k : Text) → am.get k doc' ≡ am.get k doc
    pub items : (list : ObjId) (i : ℕ) → item list i doc' ≡ item list i doc
    pub values : (o : ObjId) (k : Text) → same_text k key ≡ false → value o k doc' ≡ value o k doc
    pub children : (o : ObjId) (k : Text) → same_text k key ≡ false → child o k doc' ≡ child o k doc

  -- One write after the other, under these keys.
  abbrev pub Writes : List Text → Doc → Doc → Type 0
  Writes [] doc doc' = doc' ≡ doc
  Writes (key ∷ keys) doc doc' = (next : Doc) × Same key doc next × Writes keys next doc'

  pub length_kept :
      (list : ObjId) (keys : List Text) (doc doc' : Doc)
      → Writes keys doc doc'
      → am.list_length list doc' ≡ am.list_length list doc
  length_kept list [] doc doc' w = ap (am.list_length list) w
  length_kept list (key ∷ keys) doc doc' (next, s, w) =
      length_kept list keys next doc' w ∙ s.lengths list

  pub root_kept :
      (k : Text) (keys : List Text) (doc doc' : Doc)
      → Writes keys doc doc'
      → am.get k doc' ≡ am.get k doc
  root_kept k [] doc doc' w = ap (am.get k) w
  root_kept k (key ∷ keys) doc doc' (next, s, w) = root_kept k keys next doc' w ∙ s.roots k

  pub item_kept :
      (list : ObjId) (i : ℕ) (keys : List Text) (doc doc' : Doc)
      → Writes keys doc doc'
      → item list i doc' ≡ item list i doc
  item_kept list i [] doc doc' w = ap (item list i) w
  item_kept list i (key ∷ keys) doc doc' (next, s, w) =
      item_kept list i keys next doc' w ∙ s.items list i

  abbrev pub Others : Text → List Text → Type 0
  Others k = All (λ key. same_text k key ≡ false)

  pub value_kept :
      (o : ObjId) (k : Text) (keys : List Text) (doc doc' : Doc)
      → Others k keys
      → Writes keys doc doc'
      → value o k doc' ≡ value o k doc
  value_kept o k [] doc doc' d w = ap (value o k) w
  value_kept o k (key ∷ keys) doc doc' d (next, s, w) =
      value_kept o k keys next doc' d.1 w ∙ s.values o k d.0

  -- An entry that has what a message is made of.
  pub record Written (list : ObjId) (i : ℕ) (msg : ChatMessage) (content : Text) (doc : Doc)
      : Type 0 where
    pub entry : ObjId
    pub body : ObjId
    pub is_item : item list i doc ≡ some entry
    pub has_id : value entry id_name doc ≡ some (str msg.id)
    pub has_sender : value entry sender_name doc ≡ some (str msg.sender_node_id)
    pub has_created_at : value entry created_at_name doc ≡ some (int msg.created_at)
    pub has_updated_at : value entry updated_at_name doc ≡ some (int msg.updated_at)
    pub has_content : child entry content_name doc ≡ some body
    pub has_text : value body text_name doc ≡ some (str content)

-- What the code relies on in automerge and autosurgeon: a write is read back and changes nothing under
-- other keys, and an entry with what a message is made of is read as that message.
pub record ReadLaws {Doc ObjId : Type 0} (am : Automerge Doc ObjId)
    (hydrate_prop : ObjId → ℕ → Doc → Result ChatMessage StoreError) (reads : Reads Doc ObjId)
    : Type 0 where
  pub rooted :
      (key : Text) (doc doc' : Doc) (list : ObjId)
      → am.put_list key doc ≡ ok (list, doc')
      → am.get key doc' ≡ ok (some list)
  pub insert_roots :
      (k : Text) (list : ObjId) (i : ℕ) (doc doc' : Doc) (m : ObjId)
      → am.insert_map list i doc ≡ ok (m, doc')
      → am.get k doc' ≡ am.get k doc
  pub inserted :
      (list : ObjId) (doc doc' : Doc) (m : ObjId)
      → am.insert_map list (am.list_length list doc) doc ≡ ok (m, doc')
      → (reads.item list (am.list_length list doc) doc' ≡ some m)
        × (am.list_length list doc' ≡ suc (am.list_length list doc))
  pub put_reads :
      (o : ObjId) (key : Text) (v : Scalar) (doc doc' : Doc)
      → am.put o key v doc ≡ ok doc'
      → (reads.value o key doc' ≡ some v) × Same am reads key doc doc'
  pub put_map_reads :
      (o : ObjId) (key : Text) (doc doc' : Doc) (c : ObjId)
      → am.put_map o key doc ≡ ok (c, doc')
      → (reads.child o key doc' ≡ some c) × Same am reads key doc doc'
  pub hydrates :
      (list : ObjId) (i : ℕ) (msg : ChatMessage) (content : Text) (doc : Doc)
      → msg.content ≡ text content
      → Written am reads list i msg content doc
      → hydrate_prop list i doc ≡ ok msg
