-- ===== src/Persistence/Messages/Pages.antt =====
-- A page of messages in src/persistence.rs is the page of the sorted list of all messages.
use tryst_core_portfolio.Prelude.{
  ℕ, zero, suc, ◌+◌, ◌-◌, ◌^◌, ◌%◌, ◌≤◌, ◌<◌, ◌≡◌, refl, ap, sym, ◌∙◌, subst, Bool-cases, inl, inr,
  List, [], ◌∷◌, ◌++◌, map, All, length, take, drop, last, length-last, last-all, flatten,
  last-flatten, Result-cases, length-take_le, length-append, length-sort, drop-take, ◌==◌, sort,
  IsSorted, leb, Result, ok, arith,
}
use tryst_core_portfolio.Persistence.Snapshots.{StoreError}
use tryst_core_portfolio.Persistence.Schema.{ChatMessage, Automerge, get_all_peer_lists}
use tryst_core_portfolio.Persistence.Messages.{
  message_le, hydrate_from, fetch, slice, get_messages, get_all_messages,
}
use tryst_core_portfolio.Persistence.Messages.Order.{message_le-TotalTest}

-- The page that the documentation speaks of: without the `offset` most recent messages, the `limit`
-- most recent ones.
abbrev pub page : ℕ → ℕ → List ChatMessage → List ChatMessage
page offset limit msgs = last limit (take (length msgs - offset) msgs)

-- The early return for an empty slice makes no difference.
slice_plain :
    (offset limit : ℕ) (msgs : List ChatMessage)
    → slice offset limit msgs
      ≡ take
          (length msgs - offset - (length msgs - offset - limit))
          (drop (length msgs - offset - limit) msgs)
slice_plain offset limit msgs =
    let end = length msgs - offset in
    elim (Bool-cases (leb end (end - limit))) [
      | inl empty ↦
          let e : end - (end - limit) ≡ 0 = ground arith in
          rw (empty) (sym (ap (λ k. take k (drop (end - limit) msgs)) e))
      | inr filled ↦ rw (filled) refl
    ]

slice-eq-page :
    (offset limit : ℕ) (msgs : List ChatMessage) → slice offset limit msgs ≡ page offset limit msgs
slice-eq-page offset limit msgs =
    let end = length msgs - offset in
    let taken : length (take end msgs) ≡ end = length-take_le end msgs (omega arith) in
    slice_plain offset limit msgs
    ∙ sym (drop-take (end - limit) end msgs)
    ∙ sym (ap (λ k. drop (k - limit) (take end msgs)) taken)

-- A slice reads no more than the end of its list.
slice-last :
    (offset limit : ℕ) (msgs : List ChatMessage)
    → slice offset limit (last (offset + limit) msgs) ≡ slice offset limit msgs
slice-last offset limit msgs = elim (Bool-cases (leb (offset + limit) (length msgs))) [
  | inl many ↦
      let whole = last (offset + limit) msgs in
      let h : offset + limit ≤ length msgs = ground arith in
      let n = length-last (offset + limit) msgs h in
      let a : length whole - offset - limit ≡ 0 = omega (arith, n) in
      let b : length whole - offset - (length whole - offset - limit) ≡ limit = omega (arith, n) in
      let c : length msgs - offset - limit ≡ length msgs - (offset + limit) = omega arith in
      let d : length msgs - offset - (length msgs - offset - limit) ≡ limit = omega arith in
      slice_plain offset limit whole
      ∙ ap (λ k. take k (drop (length whole - offset - limit) whole)) b
      ∙ ap (λ k. take limit (drop k whole)) a
      ∙ sym (
          slice_plain offset limit msgs
          ∙ ap (λ k. take k (drop (length msgs - offset - limit) msgs)) d
          ∙ ap (λ k. take limit (drop k msgs)) c)
  | inr few ↦ ap (slice offset limit) (last-all (offset + limit) msgs (ground arith))
]

flatten_whole :
    (n : ℕ) (mss : List (List ChatMessage))
    → length (flatten mss) ≤ n
    → flatten (map (last n) mss) ≡ flatten mss
flatten_whole n [] h = refl
flatten_whole n (ms ∷ mss) h =
    let e = length-append ms (flatten mss) in
    rw (last-all n ms (omega (arith, e)), flatten_whole n mss (omega (arith, e))) refl

take_all : (msgs : List ChatMessage) → take (length msgs) msgs ≡ msgs
take_all [] = refl
take_all (m ∷ msgs) = ap (◌∷◌ m) (take_all msgs)

slice_all : (limit : ℕ) (msgs : List ChatMessage) → length msgs ≤ limit → slice 0 limit msgs ≡ msgs
slice_all limit msgs h =
    let e : length msgs - 0 ≡ length msgs = omega arith in
    slice-eq-page 0 limit msgs
    ∙ ap (λ k. last limit (take k msgs)) e
    ∙ ap (last limit) (take_all msgs)
    ∙ last-all limit msgs h

module _ {Doc ObjId : Type 0} (am : Automerge Doc ObjId)
    (hydrate_prop : ObjId → ℕ → Doc → Result ChatMessage StoreError) where
  -- The lists hold these messages, and every one of them can be read.
  abbrev pub Holds : List ObjId → List (List ChatMessage) → Doc → Type 0
  Holds [] [] doc = Unit {0}
  Holds [] (_ ∷ _) doc = ⊥
  Holds (_ ∷ _) [] doc = ⊥
  Holds (list ∷ lists) (msgs ∷ rest) doc =
      (hydrate_from am hydrate_prop list 0 (am.list_length list doc) doc ≡ ok msgs)
      × Holds lists rest doc

  hydrate_cons :
      (list : ObjId) (i n : ℕ) (doc : Doc) (msgs : List ChatMessage)
      → hydrate_from am hydrate_prop list i (suc n) doc ≡ ok msgs
      → (m : ChatMessage) × (rest : List ChatMessage) × (msgs ≡ m ∷ rest)
        × (hydrate_from am hydrate_prop list (suc i) n doc ≡ ok rest)
  unfolding hydrate_from
  hydrate_cons list i n doc msgs h = elim (Result-cases (hydrate_prop list i doc)) [
    | inl (m, e) ↦ elim (Result-cases (hydrate_from am hydrate_prop list (suc i) n doc)) [
      | inl (rest, e') ↦ (m, rest, ground arith, e')
      | inr (bad, e') ↦ absurd (ground arith)
    ]
    | inr (bad, e) ↦ absurd (ground arith)
  ]

  hydrate-length :
      (list : ObjId) (i n : ℕ) (doc : Doc) (msgs : List ChatMessage)
      → hydrate_from am hydrate_prop list i n doc ≡ ok msgs
      → length msgs ≡ n
  unfolding hydrate_from
  hydrate-length list i zero doc msgs h = ground arith
  hydrate-length list i (suc n) doc msgs h =
      let (m, rest, e, e') = hydrate_cons list i n doc msgs h in
      rw e (ap suc (hydrate-length list (suc i) n doc rest e'))

  hydrate-drop :
      (list : ObjId) (k i n : ℕ) (doc : Doc) (msgs : List ChatMessage)
      → hydrate_from am hydrate_prop list i n doc ≡ ok msgs
      → hydrate_from am hydrate_prop list (i + k) (n - k) doc ≡ ok (drop k msgs)
  unfolding hydrate_from
  hydrate-drop list zero i n doc msgs h =
      let a : i + 0 ≡ i = omega arith in let b : n - 0 ≡ n = omega arith in rw (a, b) h
  hydrate-drop list (suc k) i zero doc msgs h =
      let b : 0 - suc k ≡ 0 = omega arith in let e : msgs ≡ [] = ground arith in rw (b, e) refl
  hydrate-drop list (suc k) i (suc n) doc msgs h =
      let (m, rest, e, e') = hydrate_cons list i n doc msgs h in
      let a : i + suc k ≡ suc i + k = omega arith in
      let b : suc n - suc k ≡ n - k = omega arith in
      rw (a, b, e) (hydrate-drop list k (suc i) n doc rest e')

  -- What the loops fetch of lists that can be read.
  fetch_lem :
      (depth : ℕ) (lists : List ObjId) (mss : List (List ChatMessage)) (doc : Doc)
      → Holds lists mss doc
      → fetch am hydrate_prop depth lists doc ≡ ok (flatten (map (last depth) mss))
  unfolding fetch
  fetch_lem depth [] [] doc h = refl
  fetch_lem depth [] (ms ∷ mss) doc h = absurd h
  fetch_lem depth (l ∷ ls) [] doc h = absurd h
  fetch_lem depth (l ∷ ls) (ms ∷ mss) doc h =
      let n = am.list_length l doc in
      let len : length ms ≡ n = hydrate-length l 0 n doc ms h.0 in
      let z : 0 + (n - depth) ≡ n - depth = omega arith in
      let got : hydrate_from am hydrate_prop l (n - depth) (n - (n - depth)) doc
          ≡ ok (last depth ms) =
        subst
          (λ k. hydrate_from am hydrate_prop l k (n - (n - depth)) doc ≡ ok (drop (n - depth) ms)) z
          (hydrate-drop l (n - depth) 0 n doc ms h.0)
        ∙ ap (λ k. ok (drop (k - depth) ms)) (sym len) in
      elim (Bool-cases (n == 0)) [
        | inl empty ↦
            let e : ms ≡ [] = ground (arith, len) in
            let q : last depth ms ≡ [] = last-all depth ms (ground (arith, len)) ∙ e in
            rw (empty, fetch_lem depth ls mss doc h.1)
              (ap (λ l. ok (l ++ flatten (map (last depth) mss))) (sym q))
        | inr filled ↦ rw (filled, got, fetch_lem depth ls mss doc h.1) refl
      ]

  -- If the peers' lists can be read, and each of them is in the order of time stamps and ids, then
  -- `get_messages`, which reads only the end of each list, returns the page of the sorted list of all
  -- their messages, as long as the offset and the limit do not overflow together.
  pub get_messages-page :
      (offset limit : ℕ) (lists : List ObjId) (mss : List (List ChatMessage)) (doc : Doc)
      → get_all_peer_lists am doc ≡ ok lists
      → Holds lists mss doc
      → All (IsSorted message_le) mss
      → offset + limit < 2 ^ 64
      → get_messages am hydrate_prop offset limit doc
        ≡ ok (page offset limit (sort message_le (flatten mss)))
  unfolding get_messages
  get_messages-page offset limit lists mss doc found h s small =
      let depth = offset + limit in
      let e : depth % 2 ^ 64 ≡ depth = omega arith in
      rw (found, e, fetch_lem depth lists mss doc h)
        (ap ok (
          sym (slice-last offset limit (sort message_le (flatten (map (last depth) mss))))
          ∙ ap (slice offset limit) (last-flatten message_le message_le-TotalTest depth mss s)
          ∙ slice-last offset limit (sort message_le (flatten mss))
          ∙ slice-eq-page offset limit (sort message_le (flatten mss))))

  -- If the peers' lists can be read and hold fewer than 2^64 - 1 messages, `get_all_messages` returns
  -- all of them, sorted by time stamp and id, whatever order the lists are in.
  pub get_all_messages_lem :
      (lists : List ObjId) (mss : List (List ChatMessage)) (doc : Doc)
      → get_all_peer_lists am doc ≡ ok lists
      → Holds lists mss doc
      → length (flatten mss) < 2 ^ 64 - 1
      → get_all_messages am hydrate_prop doc ≡ ok (sort message_le (flatten mss))
  unfolding get_all_messages get_messages
  get_all_messages_lem lists mss doc found h small =
      let depth = 2 ^ 64 - 2 in
      let e : (0 + depth) % 2 ^ 64 ≡ depth = omega arith in
      rw (found, e, fetch_lem depth lists mss doc h)
        (ap (λ l. ok (slice 0 depth (sort message_le l))) (flatten_whole depth mss (omega arith))
          ∙ ap ok (
              slice_all depth (sort message_le (flatten mss))
                (omega (arith, length-sort message_le (flatten mss)))))
