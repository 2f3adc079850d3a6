-- ===== src/Tryst.antt =====
-- The tryst protocol's state, src/protocols/tryst/types.rs and crypto.rs, and the parts around it:
-- the table of trysts and the invites.
--
-- The repository withholds the protocol's logic and keeps stubs in its place; the stubs are what is
-- modelled here. `Uuid`, `EndpointId` and their texts are other libraries'. A byte is a number, an
-- epoch secret 32 bytes.
pub mod Rows
pub mod Saved
pub mod Invite
pub mod Crypto
pub mod Discovery
mod Examples
use tryst_core_portfolio.Prelude.{ℕ, Bool, false, List, Option}

pub record EpochSecret : Type 0 where
  pub bytes : List ℕ

pub record StoredTryst (Uuid EndpointId : Type 0) : Type 0 where
  pub id : Uuid
  pub account_id : Option EndpointId
  pub current_secret : EpochSecret
  pub previous_secret : Option EpochSecret
  pub last_updated_epoch : ℕ
  pub is_verified : Bool

-- `ratchet_if_needed`: the tryst, and whether it changed.
unfoldable pub ratchet_if_needed :
    {Uuid EndpointId : Type 0} → StoredTryst Uuid EndpointId → StoredTryst Uuid EndpointId × Bool
ratchet_if_needed t = (t, false)
