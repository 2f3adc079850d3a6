-- ===== src/Tryst/Discovery.antt =====
-- The discovery of src/protocols/tryst/discovery.rs as the repository publishes it: the logic is
-- withheld, and the bodies are stubs. A builder's setters change nothing, and `publish` does nothing.
use tryst_core_portfolio.Prelude.{Option, none, Result, ok}

pub record Builder (TrystRepository : Type 0) : Type 0 where
  pub repo : TrystRepository

-- `TrystDiscovery`.
pub record TrystDiscovery (TrystRepository : Type 0) : Type 0 where
  pub repo : TrystRepository

module _ {SecretKey TrystRepository : Type 0} where
  abbrev pub new : SecretKey → TrystRepository → Builder TrystRepository
  new _ repo = record { repo = repo }

module _ {TrystRepository : Type 0} where
  abbrev pub build :
      {E : Type 0} → Builder TrystRepository → Result (TrystDiscovery TrystRepository) E
  build b = ok (record { repo = b.repo })

  -- `resolve`: there is never a stream of items.
  unfoldable pub resolve :
      {EndpointId Stream : Type 0} → TrystDiscovery TrystRepository → EndpointId → Option Stream
  resolve d _ = none
