-- ===== src/Persistence/Schema/Hydrated.antt =====
-- The message that src/persistence/schema.rs appends to a list is the one that autosurgeon reads back
-- at its end: the keys are the names that the derived `Hydrate` looks for.
use tryst_core_portfolio.Prelude.{
  Result-cases, Option-cases, inl, inr, Text, ℕ, suc, [], ◌∷◌, some, Result, ok, err, ◌>>=◌, ◌≡◌,
  refl, ◌∙◌, ap, subst, arith,
}
use tryst_core_portfolio.Persistence.Snapshots.{StoreError}
use tryst_core_portfolio.Persistence.Schema.{
  ChatMessageContent, text, ChatMessage, str, int, Automerge, id_key, sender_key, content_key,
  content_text_key, created_at_key, updated_at_key, append_message, put_content, peer_list_key,
  ensure_peer_list, get_peer_list, transact_message,
}
use tryst_core_portfolio.Persistence.Schema.Objects.{
  Reads, Writes, Written, ReadLaws, length_kept, root_kept, item_kept, value_kept,
}

-- The value of a result, and where there is none, this one.
abbrev pub value_of : {A : Type 0} → A → Result A StoreError → A
value_of a (ok b) = b
value_of a (err e) = a

-- A step that worked, in a chain of steps.
step_cases :
    {A B : Type 0} (x : Result A StoreError) (f : A → Result B StoreError) (b : B)
    → (x >>= f) ≡ ok b
    → (a : A) × (x ≡ ok a) × (f a ≡ ok b)
step_cases (ok a) f b h = (a, refl, h)
step_cases (err e) f b h = ground arith

module _ {Doc ObjId : Type 0} (am : Automerge Doc ObjId)
    (hydrate_prop : ObjId → ℕ → Doc → Result ChatMessage StoreError) (reads : Reads Doc ObjId)
    (laws : ReadLaws am hydrate_prop reads) where
  appended :
      (list : ObjId) (msg : ChatMessage) (content : Text) (doc doc' : Doc)
      → msg.content ≡ text content
      → append_message am list msg doc ≡ ok doc'
      → Written am reads list (am.list_length list doc) msg content doc'
        × (am.list_length list doc' ≡ suc (am.list_length list doc))
        × ((k : Text) → am.get k doc' ≡ am.get k doc)
  unfolding append_message put_content
  appended list msg content doc doc' is_text h =
      let n = am.list_length list doc in
      let (made, e0, h1) = step_cases (am.insert_map list n doc) _ doc' h in
      let m = made.0 in
      let d0 = made.1 in
      let (d1, e1, h2) = step_cases (am.put m id_key (str msg.id) d0) _ doc' h1 in
      let (d2, e2, h3) = step_cases (am.put m sender_key (str msg.sender_node_id) d1) _ doc' h2 in
      let (d3, e3, h4) = step_cases (am.put m created_at_key (int msg.created_at) d2) _ doc' h3 in
      let (d4, e4, h5) = step_cases (am.put m updated_at_key (int msg.updated_at) d3) _ doc' h4 in
      let (boxed, e5, h6) = step_cases (am.put_map m content_key d4) _ doc' h5 in
      let c = boxed.0 in
      let d5 = boxed.1 in
      let e6 : am.put c content_text_key (str content) d5 ≡ ok doc' =
        subst (λ x. put_content am c x d5 ≡ ok doc') is_text h6 in
      let i0 = laws.inserted list doc d0 m e0 in
      let (v1, s1) = laws.put_reads m id_key (str msg.id) d0 d1 e1 in
      let (v2, s2) = laws.put_reads m sender_key (str msg.sender_node_id) d1 d2 e2 in
      let (v3, s3) = laws.put_reads m created_at_key (int msg.created_at) d2 d3 e3 in
      let (v4, s4) = laws.put_reads m updated_at_key (int msg.updated_at) d3 d4 e4 in
      let (v5, s5) = laws.put_map_reads m content_key d4 d5 c e5 in
      let (v6, s6) = laws.put_reads c content_text_key (str content) d5 doc' e6 in
      let w5 : Writes am reads (content_text_key ∷ []) d5 doc' = (doc', s6, refl) in
      let w4 : Writes am reads (content_key ∷ content_text_key ∷ []) d4 doc' = (d5, s5, w5) in
      let later3 = updated_at_key ∷ content_key ∷ content_text_key ∷ [] in
      let w3 : Writes am reads later3 d3 doc' = (d4, s4, w4) in
      let w2 : Writes am reads (created_at_key ∷ later3) d2 doc' = (d3, s3, w3) in
      let later1 = sender_key ∷ created_at_key ∷ later3 in
      let w1 : Writes am reads later1 d1 doc' = (d2, s2, w2) in
      let w0 : Writes am reads (id_key ∷ later1) d0 doc' = (d1, s1, w1) in
      (
        record {
          entry = m;
          body = c;
          is_item = item_kept am reads list n (id_key ∷ later1) d0 doc' w0 ∙ i0.0;
          has_id =
              value_kept am reads m id_key later1 d1 doc' (refl, (refl, (refl, (refl, (refl, tt)))))
                w1
              ∙ v1;
          has_sender =
              value_kept am reads m sender_key (created_at_key ∷ later3) d2 doc'
                (refl, (refl, (refl, (refl, tt)))) w2
              ∙ v2;
          has_created_at =
              value_kept am reads m created_at_key later3 d3 doc' (refl, (refl, (refl, tt))) w3
              ∙ v3;
          has_updated_at =
              value_kept am reads m updated_at_key (content_key ∷ content_text_key ∷ []) d4 doc'
                (refl, (refl, tt)) w4
              ∙ v4;
          has_content = s6.children m content_key refl ∙ v5;
          has_text = v6;
        },
        length_kept am reads list (id_key ∷ later1) d0 doc' w0 ∙ i0.1,
        λ k.
            root_kept am reads k (id_key ∷ later1) d0 doc' w0
            ∙ laws.insert_roots k list n doc d0 m e0,
      )

  is_text : (c : ChatMessageContent) → (t : Text) × (c ≡ text t)
  is_text (text t) = (t, refl)

  hydrate-append_message :
      (list : ObjId) (msg : ChatMessage) (doc doc' : Doc)
      → append_message am list msg doc ≡ ok doc'
      → (hydrate_prop list (am.list_length list doc) doc' ≡ ok msg)
        × (am.list_length list doc' ≡ suc (am.list_length list doc))
        × ((k : Text) → am.get k doc' ≡ am.get k doc)
  hydrate-append_message list msg doc doc' h =
      let (t, e) = is_text msg.content in
      let (written, longer, roots) = appended list msg t doc doc' e h in
      (laws.hydrates list (am.list_length list doc) msg t doc' e written, longer, roots)

  -- The list that a peer has after `ensure_peer_list`.
  ensure-get :
      (peer_id : Text) (doc doc' : Doc) (list : ObjId)
      → ensure_peer_list am peer_id doc ≡ ok (list, doc')
      → get_peer_list am peer_id doc' ≡ ok (some list)
  unfolding ensure_peer_list get_peer_list
  ensure-get peer_id doc doc' list h = elim (Result-cases (am.get (peer_list_key peer_id) doc)) [
    | inl (found, e) ↦ elim (Option-cases found) [
      | inl f ↦ laws.rooted (peer_list_key peer_id) doc doc' list (ground (arith, e, f))
      | inr (l, f) ↦ ground (arith, e, f)
    ]
    | inr (bad, e) ↦ ground (arith, e)
  ]

  -- If the transaction of `add_message` succeeds, then the own peer's list is in the document, and its
  -- last entry is read as the message that the transaction returns, which has the content, the own
  -- peer's id as the sender, and the time of the call.
  pub hydrate-transact_message :
      (new_msg_id my_peer_id : Text) (now : ℕ) (content : ChatMessageContent) (doc doc' : Doc)
      (msg : ChatMessage)
      → transact_message am new_msg_id my_peer_id now content doc ≡ ok (msg, doc')
      → (msg ≡ record {
        id = new_msg_id;
        sender_node_id = my_peer_id;
        content = content;
        created_at = now;
        updated_at = now;
      })
        × ((list : ObjId) × (n : ℕ) × (get_peer_list am my_peer_id doc' ≡ ok (some list))
            × (am.list_length list doc' ≡ suc n)
            × (hydrate_prop list n doc' ≡ ok msg))
  unfolding transact_message get_peer_list
  hydrate-transact_message new_msg_id my_peer_id now content doc doc' msg h =
      let (found, e0, h1) = step_cases (ensure_peer_list am my_peer_id doc) _ (msg, doc') h in
      let made : ChatMessage = record {
        id = new_msg_id;
        sender_node_id = my_peer_id;
        content = content;
        created_at = now;
        updated_at = now;
      } in
      let (d, e1, h2) = step_cases (append_message am found.0 made found.1) _ (msg, doc') h1 in
      let written = hydrate-append_message found.0 made found.1 d e1 in
      subst
        (λ p.
          (p.0 ≡ made)
          × ((list : ObjId) × (n : ℕ) × (get_peer_list am my_peer_id p.1 ≡ ok (some list))
              × (am.list_length list p.1 ≡ suc n)
              × (hydrate_prop list n p.1 ≡ ok p.0)))
        (ap (value_of (made, d)) h2)
        (
          refl,
          (
            found.0,
            am.list_length found.0 found.1,
            written.2 (peer_list_key my_peer_id) ∙ ensure-get my_peer_id doc found.1 found.0 e0,
            written.1,
            written.0,
          ),
        )
