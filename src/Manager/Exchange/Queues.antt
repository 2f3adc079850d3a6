-- ===== src/Manager/Exchange/Queues.antt =====
-- The queues between two managers of src/manager.rs.
use tryst_core_portfolio.Prelude.{
  ℕ, Bool, true, false, List, [], ◌∷◌, ◌++◌, ◌≡◌, ◌∙◌, refl, ap, sym, none, some, length, drop,
  length-append, append-nil, arith,
}
use tryst_core_portfolio.Chat.Message.{SyncMessage, ProtoMessage, sync}
use tryst_core_portfolio.Chat.Connection.Tasks.{Session}
use tryst_core_portfolio.Manager.Exchange.{in_order, posted}

-- Something is on the way.
abbrev pub has_any : List ProtoMessage → Bool
has_any [] = false
has_any (msg ∷ msgs) = true

-- Some sync message that is not empty is on the way.
abbrev pub asks : List ProtoMessage → Bool
asks [] = false
asks (sync none ∷ msgs) = asks msgs
asks (sync (some _) ∷ msgs) = true

pub has_any-append :
    (msgs : List ProtoMessage) (msg : ProtoMessage) → has_any (msgs ++ msg ∷ []) ≡ true
has_any-append [] msg = refl
has_any-append (m ∷ msgs) msg = refl

pub asks-append :
    (msgs : List ProtoMessage) (s : SyncMessage) → asks (msgs ++ sync (some s) ∷ []) ≡ true
asks-append [] s = refl
asks-append (sync none ∷ msgs) s = asks-append msgs s
asks-append (sync (some _) ∷ msgs) s = refl

length-in_order : (l : List (ℕ × ProtoMessage)) → length (in_order l) ≡ length l
unfolding in_order
length-in_order [] = refl
length-in_order ((t, m) ∷ l) = omega (arith, length-in_order l, length-append (in_order l) (m ∷ []))

drop-append : (msgs more : List ProtoMessage) → drop (length msgs) (msgs ++ more) ≡ more
drop-append [] more = refl
drop-append (m ∷ msgs) more = drop-append msgs more

drop-in_order :
    (l : List (ℕ × ProtoMessage)) (more : List ProtoMessage)
    → drop (length l) (in_order l ++ more) ≡ more
drop-in_order l more =
    ap (λ n. drop n (in_order l ++ more)) (sym (length-in_order l)) ∙ drop-append (in_order l) more

module _ {EndpointId : Type 0} (before after : Session EndpointId) where
  pub posted-same : after.sent ≡ before.sent → posted before after ≡ []
  unfolding posted
  posted-same e =
      ap (λ l. drop (length before.sent) (in_order l)) e
      ∙ ap (drop (length before.sent)) (sym (append-nil (in_order before.sent)))
      ∙ drop-in_order before.sent []

  pub posted-one :
      (tx : ℕ) (msg : ProtoMessage)
      → after.sent ≡ (tx, msg) ∷ before.sent
      → posted before after ≡ msg ∷ []
  unfolding posted in_order
  posted-one tx msg e =
      ap (λ l. drop (length before.sent) (in_order l)) e ∙ drop-in_order before.sent (msg ∷ [])
