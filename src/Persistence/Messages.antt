-- ===== src/Persistence/Messages.antt =====
-- The queries for messages of `ChatRepository` in src/persistence.rs.
--
-- A usize has 64 bits, and the sum of an offset and a limit wraps around as in a release build; the
-- debug build panics there. `hydrate_prop` is autosurgeon's.
pub mod Order
pub mod Pages
mod Examples
use tryst_core_portfolio.Prelude.{
  Text, ℕ, zero, suc, ◌+◌, ◌-◌, ◌%◌, ◌^◌, Bool, true, false, List, [], ◌∷◌, ◌++◌, if◌then◌else◌,
  ltb, leb, ◌==◌, length, take, drop, sort, Result, ok, err, ◌>>=◌,
}
use tryst_core_portfolio.Persistence.Snapshots.{StoreError}
use tryst_core_portfolio.Persistence.Schema.{ChatMessage, Automerge, get_all_peer_lists}

-- `a <= b` on texts, by their code points.
abbrev pub text_leb : Text → Text → Bool
text_leb [] bs = true
text_leb (a ∷ as') [] = false
text_leb (a ∷ as') (b ∷ bs) = let rest = text_leb as' bs in if a == b then rest else ltb a b

-- `created_at`, then `id`: whether the comparison is not `Greater`.
abbrev pub message_le : ChatMessage → ChatMessage → Bool
message_le a b =
    if a.created_at == b.created_at then text_leb a.id b.id else ltb a.created_at b.created_at

-- The slice of the sorted candidates.
abbrev pub slice : ℕ → ℕ → List ChatMessage → List ChatMessage
slice offset limit candidates =
    let end = length candidates - offset in
    let start = end - limit in
    if leb end start then [] else take (end - start) (drop start candidates)

module _ {Doc ObjId : Type 0} (am : Automerge Doc ObjId)
    (hydrate_prop : ObjId → ℕ → Doc → Result ChatMessage StoreError) where
  -- The inner loop of `get_messages`: `n` messages from the index `i` on.
  unfoldable pub hydrate_from : ObjId → ℕ → ℕ → Doc → Result (List ChatMessage) StoreError
  hydrate_from list i zero doc = ok []
  hydrate_from list i (suc n) doc = do
    msg ← hydrate_prop list i doc
    rest ← hydrate_from list (suc i) n doc
    ok (msg ∷ rest)

  -- The outer loop: the last `fetch_depth` messages of each list.
  unfoldable pub fetch : ℕ → List ObjId → Doc → Result (List ChatMessage) StoreError
  unfolding hydrate_from
  fetch fetch_depth [] doc = ok []
  fetch fetch_depth (list ∷ lists) doc =
      let len = am.list_length list doc in
      let start = len - fetch_depth in
      do
        msgs ← if len == 0 then ok [] else hydrate_from list start (len - start) doc
        rest ← fetch fetch_depth lists doc
        ok (msgs ++ rest)

  -- `get_messages`.
  unfoldable pub get_messages : ℕ → ℕ → Doc → Result (List ChatMessage) StoreError
  unfolding fetch get_all_peer_lists
  get_messages offset limit doc = do
    lists ← get_all_peer_lists am doc
    candidates ← fetch ((offset + limit) % 2 ^ 64) lists doc
    ok (slice offset limit (sort message_le candidates))

  -- `get_all_messages`.
  unfoldable pub get_all_messages : Doc → Result (List ChatMessage) StoreError
  unfolding get_messages
  get_all_messages doc = get_messages 0 (2 ^ 64 - 2) doc
