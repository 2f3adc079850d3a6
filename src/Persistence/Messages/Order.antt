-- ===== src/Persistence/Messages/Order.antt =====
-- The order of messages in src/persistence.rs is total, so that a sort by it makes sense.
use tryst_core_portfolio.Prelude.{Text, true, false, [], ◌∷◌, ◌≡◌, refl, arith, TotalTest}
use tryst_core_portfolio.Persistence.Schema.{ChatMessage}
use tryst_core_portfolio.Persistence.Messages.{text_leb, message_le}

text_leb_total : (as' bs : Text) → text_leb as' bs ≡ false → text_leb bs as' ≡ true
text_leb_total [] bs h = ground arith
text_leb_total (a ∷ as') [] h = refl
text_leb_total (a ∷ as') (b ∷ bs) h = ground (arith, text_leb_total as' bs)

text_leb_trans :
    (as' bs cs : Text) → text_leb as' bs ≡ true → text_leb bs cs ≡ true → text_leb as' cs ≡ true
text_leb_trans [] bs cs h k = refl
text_leb_trans (a ∷ as') [] cs h k = ground arith
text_leb_trans (a ∷ as') (b ∷ bs) [] h k = ground arith
text_leb_trans (a ∷ as') (b ∷ bs) (c ∷ cs) h k = ground (arith, text_leb_trans as' bs cs)

message_le_total : (a b : ChatMessage) → message_le a b ≡ false → message_le b a ≡ true
message_le_total a b h = ground (arith, text_leb_total a.id b.id)

message_le_trans :
    (a b c : ChatMessage) → message_le a b ≡ true → message_le b c ≡ true → message_le a c ≡ true
message_le_trans a b c h k = ground (arith, text_leb_trans a.id b.id c.id)

pub message_le-TotalTest : TotalTest message_le
message_le-TotalTest = record { total = message_le_total; trans = message_le_trans }
