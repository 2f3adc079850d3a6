-- ===== src/Persistence/ChatList/Peers.antt =====
-- The list of peers of src/persistence.rs, from the rows that the application stores.
use tryst_core_portfolio.Prelude.{
  same_text_refl, same_text_eq, Text, same_text, true, false, List, [], ◌∷◌, ◌++◌, Option, some,
  ◌≡◌, ◌≢◌, ◌⊎◌, ◌↔◌, refl, sym, arith, All, In, map, ok, insert, sort, IsSorted, TotalTest,
  sort-IsSorted, ite,
}
use tryst_core_portfolio.Chat.Connection.{EndpointOrder}
use tryst_core_portfolio.App.Names.{display}
use tryst_core_portfolio.Persistence.ChatList.{
  split_once, other_half, remote_part, cons_new, dedup, id_leb, peer_ids,
  list_chats_remote_peers_ids,
}

-- What the code relies on in the texts of ids: they read back, and have no underscore.
pub record IdTexts {EndpointId : Type 0} (text : EndpointId → Text)
    (from_str : Text → Option EndpointId) : Type 0 where
  pub reads : (e : EndpointId) → from_str (text e) ≡ some e
  pub no_separator : (e : EndpointId) → All (λ c. c ≢ 95) (text e)

split_once_append : (a b : Text) → All (λ c. c ≢ 95) a → split_once 95 (a ++ 95 ∷ b) ≡ some (a, b)
unfolding split_once
split_once_append [] b h = refl
split_once_append (c ∷ a) b h = ground (arith, split_once_append a b h.1)

remote_part_append :
    (my_id a b : Text)
    → All (λ c. c ≢ 95) a
    → remote_part my_id (a ++ 95 ∷ b) ≡ other_half (same_text a my_id) (same_text b my_id) (a, b)
unfolding remote_part
remote_part_append my_id a b h = ground (arith, split_once_append a b h)

peer_ids_cons :
    {EndpointId : Type 0} (from_str : Text → Option EndpointId) (my_id chat_id remote : Text)
    (rest : List Text) (id : EndpointId) (ids : List EndpointId)
    → remote_part my_id chat_id ≡ some remote
    → from_str remote ≡ some id
    → peer_ids from_str my_id rest ≡ ok ids
    → peer_ids from_str my_id (chat_id ∷ rest) ≡ ok (id ∷ ids)
unfolding peer_ids
peer_ids_cons from_str my_id chat_id remote rest id ids h k l = ground arith

module _ {EndpointId : Type 0} ⦃order : EndpointOrder EndpointId⦄ (text : EndpointId → Text)
    (from_str : Text → Option EndpointId) (laws : IdTexts text from_str) where
  other_text : (a b : EndpointId) → a ≢ b → same_text (text a) (text b) ≡ false
  other_text a b ne = ground (arith, same_text_eq (text a) (text b), laws.reads a, laws.reads b)

  remote_part-display :
      (my_id remote : EndpointId)
      → remote ≢ my_id
      → remote_part (text my_id) (display text (record { my_id = my_id; remote_id = remote }))
        ≡ some (text remote)
  unfolding display
  remote_part-display my_id remote ne =
      let o = other_text remote my_id ne in
      let r = same_text_refl (text my_id) in
      ground (
        arith,
        remote_part_append (text my_id) (text remote) (text my_id) (laws.no_separator remote),
        remote_part_append (text my_id) (text my_id) (text remote) (laws.no_separator my_id),
      )

  peer_ids_lem :
      (my_id : EndpointId) (remotes : List EndpointId)
      → All (λ r. r ≢ my_id) remotes
      → peer_ids from_str
          (text my_id)
          (map (λ r. display text (record { my_id = my_id; remote_id = r })) remotes)
        ≡ ok remotes
  unfolding peer_ids
  peer_ids_lem my_id [] h = refl
  peer_ids_lem my_id (r ∷ rs) h =
      peer_ids_cons from_str (text my_id) (display text (record { my_id = my_id; remote_id = r }))
        (text r) (map (λ r. display text (record { my_id = my_id; remote_id = r })) rs) r rs
        (remote_part-display my_id r h.0) (laws.reads r) (peer_ids_lem my_id rs h.1)

module _ {EndpointId : Type 0} ⦃order : EndpointOrder EndpointId⦄ where
  -- Each id is before all later ones.
  abbrev pub Ascending : List EndpointId → Type 0
  Ascending [] = Unit {0}
  Ascending (x ∷ xs) = All (λ y. order.lt x y ≡ true) xs × Ascending xs

  All-lt_trans :
      (x y : EndpointId) (ys : List EndpointId)
      → order.lt x y ≡ true
      → All (λ z. order.lt y z ≡ true) ys
      → All (λ z. order.lt x z ≡ true) ys
  All-lt_trans x y [] h a = tt
  All-lt_trans x y (z ∷ ys) h a = (order.lt_trans x y z h a.0, All-lt_trans x y ys h a.1)

module _ {EndpointId : Type 0} ⦃order : EndpointOrder EndpointId⦄ (dec : Discrete EndpointId) where
  id_leb_trans : (a b c : EndpointId) → id_leb a b ≡ true → id_leb b c ≡ true → id_leb a c ≡ true
  id_leb_trans a b c h k = elim (dec a b) [
    | yes same ↦ rw same k
    | no ne ↦ ground (arith, order.lt_total b a (λ e. ne (sym e)), order.lt_trans c a b)
  ]

  id_leb-TotalTest : TotalTest (λ (a b : EndpointId). id_leb a b)
  id_leb-TotalTest = record {
    total = λ a b h. ground (arith, order.lt_asymm b a);
    trans = id_leb_trans;
  }

  In-insert :
      (x y : EndpointId) (xs : List EndpointId) → In x (insert id_leb y xs) → (y ≡ x) ⊎ In x xs
  unfolding insert
  In-insert x y [] h = h
  In-insert x y (z ∷ xs) h = ground (arith, In-insert x y xs)

  insert-In :
      (x y : EndpointId) (xs : List EndpointId) → (y ≡ x) ⊎ In x xs → In x (insert id_leb y xs)
  unfolding insert
  insert-In x y [] h = h
  insert-In x y (z ∷ xs) h = ground (arith, insert-In x y xs)

  In-sort : (x : EndpointId) (xs : List EndpointId) → In x (sort id_leb xs) → In x xs
  unfolding sort
  In-sort x [] h = h
  In-sort x (y ∷ xs) h = ground (arith, In-insert x y (sort id_leb xs) h, In-sort x xs)

  sort-In : (x : EndpointId) (xs : List EndpointId) → In x xs → In x (sort id_leb xs)
  unfolding sort
  sort-In x [] h = h
  sort-In x (y ∷ xs) h = ground (arith, insert-In x y (sort id_leb xs), sort-In x xs)

  In-cons_new :
      (x y : EndpointId) (xs : List EndpointId) → In x (cons_new dec y xs) → (y ≡ x) ⊎ In x xs
  In-cons_new x y [] h = h
  In-cons_new x y (z ∷ xs) h = ground arith

  cons_new-In :
      (x y : EndpointId) (xs : List EndpointId) → (y ≡ x) ⊎ In x xs → In x (cons_new dec y xs)
  cons_new-In x y [] h = h
  cons_new-In x y (z ∷ xs) h = ground arith

  In-dedup : (x : EndpointId) (xs : List EndpointId) → In x (dedup dec xs) → In x xs
  unfolding dedup
  In-dedup x [] h = h
  In-dedup x (y ∷ xs) h = ground (arith, In-cons_new x y (dedup dec xs) h, In-dedup x xs)

  dedup-In : (x : EndpointId) (xs : List EndpointId) → In x xs → In x (dedup dec xs)
  unfolding dedup
  dedup-In x [] h = h
  dedup-In x (y ∷ xs) h = ground (arith, cons_new-In x y (dedup dec xs), dedup-In x xs)

  cons_new-All :
      (P : EndpointId → Type 0) (x : EndpointId) (xs : List EndpointId)
      → P x
      → All P xs
      → All P (cons_new dec x xs)
  cons_new-All P x [] p h = (p, tt)
  cons_new-All P x (y ∷ ys) p h = elim (dec x y) as (λ d. All P (ite d (y ∷ ys) (x ∷ y ∷ ys))) [
    | yes _ ↦ h
    | no _ ↦ (p, h)
  ]

  dedup-All : (P : EndpointId → Type 0) (xs : List EndpointId) → All P xs → All P (dedup dec xs)
  unfolding dedup
  dedup-All P [] h = h
  dedup-All P (x ∷ xs) h = cons_new-All P x (dedup dec xs) h.0 (dedup-All P xs h.1)

  cons_new-Ascending :
      (x : EndpointId) (ys : List EndpointId)
      → All (λ y. id_leb x y ≡ true) ys
      → Ascending ys
      → Ascending (cons_new dec x ys)
  cons_new-Ascending x [] h a = (tt, tt)
  cons_new-Ascending x (y ∷ ys) h a =
      elim (dec x y) as (λ d. Ascending (ite d (y ∷ ys) (x ∷ y ∷ ys))) [
        | yes same ↦ a
        | no ne ↦
            let before : order.lt x y ≡ true = ground (arith, order.lt_total x y ne, h.0) in
            ((before, All-lt_trans x y ys before a.0), a)
      ]

  dedup-Ascending :
      (xs : List EndpointId) → IsSorted (λ a b. id_leb a b) xs → Ascending (dedup dec xs)
  unfolding dedup
  dedup-Ascending [] s = tt
  dedup-Ascending (x ∷ xs) s =
      cons_new-Ascending x (dedup dec xs) (dedup-All (λ y. id_leb x y ≡ true) xs s.0)
        (dedup-Ascending xs s.1)

  listed-In : (x : EndpointId) (xs : List EndpointId) → In x xs ↔ In x (dedup dec (sort id_leb xs))
  listed-In x xs = (
    λ h. dedup-In x (sort id_leb xs) (sort-In x xs h),
    λ h. In-sort x xs (In-dedup x (sort id_leb xs) h),
  )

  -- If the database answers, and every stored chat id is the one made of the own id and another
  -- endpoint's, then `list_chats_remote_peers_ids` returns exactly these other endpoints, in strictly
  -- ascending order, so that none is there twice.
  pub list_chats_remote_peers_ids_lem :
      (text : EndpointId → Text) (from_str : Text → Option EndpointId)
      → IdTexts text from_str
      → (my_id : EndpointId) (remotes : List EndpointId) → All (λ r. r ≢ my_id) remotes
      → (ids : List EndpointId) × (list_chats_remote_peers_ids dec from_str false
            (text my_id)
            (map (λ r. display text (record { my_id = my_id; remote_id = r })) remotes)
          ≡ ok ids)
        × ((x : EndpointId) → In x remotes ↔ In x ids)
        × Ascending ids
  unfolding list_chats_remote_peers_ids
  list_chats_remote_peers_ids_lem text from_str laws my_id remotes h = (
    dedup dec (sort id_leb remotes),
    ground (arith, peer_ids_lem text from_str laws my_id remotes h),
    λ x. listed-In x remotes,
    dedup-Ascending (sort id_leb remotes)
        (sort-IsSorted (λ a b. id_leb a b) id_leb-TotalTest remotes),
  )
