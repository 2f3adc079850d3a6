-- ===== src/Persistence/Schema/Examples.antt =====
-- The theorem on appended messages, for documents that are tables of what was written.
use tryst_core_portfolio.Prelude.{
  Text, same_text, same_text_refl, ℕ, suc, true, [], ◌∷◌, Option, none, some, if◌then◌else◌, ◌==◌,
  ◌&&◌, Result, ok, err, ◌≡◌, refl, ap, sym, subst, arith,
}
use tryst_core_portfolio.Persistence.Snapshots.{StoreError}
use tryst_core_portfolio.Persistence.Schema.{
  text, ChatMessage, Scalar, str, int, Automerge, transact_message, get_peer_list,
}
use tryst_core_portfolio.Persistence.Schema.Objects.{
  id_name, sender_name, content_name, text_name, created_at_name, updated_at_name, Reads, Same,
  Written, ReadLaws,
}
use tryst_core_portfolio.Persistence.Schema.Hydrated.{value_of, hydrate-transact_message}

record Store : Type 0 where
  next : ℕ
  size : ℕ → ℕ
  items : ℕ → ℕ → Option ℕ
  values : ℕ → Text → Option Scalar
  children : ℕ → Text → Option ℕ
  root : Text → Option ℕ

abbrev tables : Automerge Store ℕ
tables = record {
  keys = λ d. [];
  get = λ key d. ok (d.root key);
  list_length = λ id d. d.size id;
  put_list = λ key d. ok (
    d.next,
    record d { next = suc d.next; root = λ k. (if same_text k key then some d.next else d.root k) },
  );
  insert_map = λ list i d. ok (
    d.next,
    record d {
      next = suc d.next;
      size = λ l. (if l == list then suc (d.size l) else d.size l);
      items = λ l j. (if (l == list) && (j == i) then some d.next else d.items l j);
    },
  );
  put_map = λ o key d. ok (
    d.next,
    record d {
      next = suc d.next;
      children = λ p k. (if (p == o) && same_text k key then some d.next else d.children p k);
    },
  );
  put = λ o key v d.
      ok (record d {
        values = λ p k. (if (p == o) && same_text k key then some v else d.values p k);
      });
}

abbrev store_reads : Reads Store ℕ
store_reads = record {
  item = λ list i d. d.items list i;
  value = λ o k d. d.values o k;
  child = λ o k d. d.children o k;
}

abbrev built :
    Option Scalar
    → Option Scalar
    → Option Scalar
    → Option Scalar
    → Option Scalar
    → Result ChatMessage StoreError
built (some (str i)) (some (str s)) (some (str t)) (some (int c)) (some (int u)) =
    ok (record { id = i; sender_node_id = s; content = text t; created_at = c; updated_at = u })
built _ _ _ _ _ = err StoreError.automerge

abbrev value_in : Option ℕ → Text → Store → Option Scalar
value_in none k d = none
value_in (some o) k d = d.values o k

abbrev hydrate_entry : Option ℕ → Store → Result ChatMessage StoreError
hydrate_entry none d = err StoreError.automerge
hydrate_entry (some m) d =
    built (d.values m id_name) (d.values m sender_name)
      (value_in (d.children m content_name) text_name d) (d.values m created_at_name)
      (d.values m updated_at_name)

same_key : (o : ℕ) (key : Text) → (o == o) && same_text key key ≡ true
same_key o key = ground (arith, same_text_refl key)

put_reads :
    (o : ℕ) (key : Text) (v : Scalar) (doc doc' : Store)
    → tables.put o key v doc ≡ ok doc'
    → (doc'.values o key ≡ some v) × Same tables store_reads key doc doc'
put_reads o key v doc doc' h =
    subst (λ d. (d.values o key ≡ some v) × Same tables store_reads key doc d) (ap (value_of doc) h)
      (
        ground (arith, same_key o key),
        record {
          lengths = λ l. refl;
          roots = λ k. refl;
          items = λ l i. refl;
          values = λ p k d. ground arith;
          children = λ p k d. refl;
        },
      )

put_map_reads :
    (o : ℕ) (key : Text) (doc doc' : Store) (c : ℕ)
    → tables.put_map o key doc ≡ ok (c, doc')
    → (doc'.children o key ≡ some c) × Same tables store_reads key doc doc'
put_map_reads o key doc doc' c h =
    subst (λ d. (d.1.children o key ≡ some d.0) × Same tables store_reads key doc d.1)
      (ap (value_of (c, doc)) h)
      (
        ground (arith, same_key o key),
        record {
          lengths = λ l. refl;
          roots = λ k. refl;
          items = λ l i. refl;
          values = λ p k d. refl;
          children = λ p k d. ground arith;
        },
      )

inserted :
    (list : ℕ) (doc doc' : Store) (m : ℕ)
    → tables.insert_map list (doc.size list) doc ≡ ok (m, doc')
    → (doc'.items list (doc.size list) ≡ some m) × (doc'.size list ≡ suc (doc.size list))
inserted list doc doc' m h =
    subst (λ d. (d.1.items list (doc.size list) ≡ some d.0) × (d.1.size list ≡ suc (doc.size list)))
      (ap (value_of (m, doc)) h) (ground arith, ground arith)

rooted :
    (key : Text) (doc doc' : Store) (list : ℕ)
    → tables.put_list key doc ≡ ok (list, doc')
    → tables.get key doc' ≡ ok (some list)
rooted key doc doc' list h =
    subst (λ d. tables.get key d.1 ≡ ok (some d.0)) (ap (value_of (list, doc)) h)
      (ground (arith, same_text_refl key))

insert_roots :
    (k : Text) (list i : ℕ) (doc doc' : Store) (m : ℕ)
    → tables.insert_map list i doc ≡ ok (m, doc')
    → tables.get k doc' ≡ tables.get k doc
insert_roots k list i doc doc' m h =
    subst (λ d. tables.get k d.1 ≡ tables.get k doc) (ap (value_of (m, doc)) h) refl

hydrates :
    (list i : ℕ) (msg : ChatMessage) (content : Text) (doc : Store)
    → msg.content ≡ text content
    → Written tables store_reads list i msg content doc
    → hydrate_entry (doc.items list i) doc ≡ ok msg
hydrates list i msg content doc is_text w =
    rw
      (
        w.is_item, w.has_id, w.has_sender, w.has_content, w.has_text, w.has_created_at,
        w.has_updated_at,
      )
      (ap
        (λ c. ok (record {
          id = msg.id;
          sender_node_id = msg.sender_node_id;
          content = c;
          created_at = msg.created_at;
          updated_at = msg.updated_at;
        }))
        (sym is_text))

store_laws : ReadLaws tables (λ list i d. hydrate_entry (d.items list i) d) store_reads
store_laws = record {
  rooted = rooted;
  insert_roots = insert_roots;
  inserted = inserted;
  put_reads = put_reads;
  put_map_reads = put_map_reads;
  hydrates = hydrates;
}

abbrev empty : Store
empty = record {
  next = 1;
  size = λ l. 0;
  items = λ l i. none;
  values = λ o k. none;
  children = λ o k. none;
  root = λ k. none;
}

abbrev hello : ChatMessage
hello = record {
  id = 49 ∷ [];
  sender_node_id = 97 ∷ [];
  content = text (104 ∷ 105 ∷ []);
  created_at = 10;
  updated_at = 10;
}

abbrev filled : ChatMessage × Store
filled =
    value_of (hello, empty)
      (transact_message tables (49 ∷ []) (97 ∷ []) 10 (text (104 ∷ 105 ∷ [])) empty)

hydrate-transact_message_example :
    (filled.0 ≡ hello)
    × ((list : ℕ) × (n : ℕ) × (get_peer_list tables (97 ∷ []) filled.1 ≡ ok (some list))
        × (filled.1.size list ≡ suc n)
        × (hydrate_entry (filled.1.items list n) filled.1 ≡ ok filled.0))
unfolding transact_message
hydrate-transact_message_example =
    hydrate-transact_message tables (λ list i d. hydrate_entry (d.items list i) d) store_reads
      store_laws (49 ∷ []) (97 ∷ []) 10 (text (104 ∷ 105 ∷ [])) empty filled.1 filled.0 refl
