-- ===== src/Chat/Connection/Numbers.antt =====
-- Endpoint ids that are numbers, for the tests of the modules about src/protocols/chat.rs.
use tryst_core_portfolio.Prelude.{ℕ, true, false, ltb, ◌≡◌, ◌≢◌, arith}
use tryst_core_portfolio.Chat.Connection.{EndpointOrder}

pub ltb-asymm : (a b : ℕ) → ltb a b ≡ true → ltb b a ≡ false
ltb-asymm a b h = ground arith

pub ltb-total : (a b : ℕ) → a ≢ b → ltb a b ≡ false → ltb b a ≡ true
ltb-total a b n h = ground arith

pub ltb_trans : (a b c : ℕ) → ltb a b ≡ true → ltb b c ≡ true → ltb a c ≡ true
ltb_trans a b c h k = ground arith

instance abbrev pub number_order : EndpointOrder ℕ
number_order = record { lt = ltb; lt_asymm = ltb-asymm; lt_total = ltb-total; lt_trans = ltb_trans }
