-- ===== src/App/Names.antt =====
-- The text of a chat's id in src/persistence.rs, which is the key of its rows.
use tryst_core_portfolio.Prelude.{
  List, ◌∷◌, ◌++◌, ℕ, if◌then◌else◌, ◌≡◌, ◌≢◌, refl, Bool-cases, inl, inr,
}
use tryst_core_portfolio.Chat.Connection.{EndpointOrder}
use tryst_core_portfolio.App.{ChatId}

module _ {EndpointId : Type 0} where
  -- `Display` of `ChatId`: the two ids, sorted, with an underscore between them.
  unfoldable pub display :
      ⦃order : EndpointOrder EndpointId⦄ → (EndpointId → List ℕ) → ChatId EndpointId → List ℕ
  display ⦃order⦄ text k =
      if order.lt k.remote_id k.my_id
      then text k.remote_id ++ 95 ∷ text k.my_id
      else text k.my_id ++ 95 ∷ text k.remote_id

  -- Two different peers store their chat with each other under the same key.
  display-swap :
      ⦃order : EndpointOrder EndpointId⦄ (text : EndpointId → List ℕ) (a b : EndpointId)
      → a ≢ b
      → display text (record { my_id = a; remote_id = b })
        ≡ display text (record { my_id = b; remote_id = a })
  unfolding display
  display-swap ⦃order⦄ text a b ne = elim (Bool-cases (order.lt a b)) [
    | inl l ↦ rw (l, order.lt_asymm a b l) refl
    | inr g ↦ rw (g, order.lt_total a b ne g) refl
  ]
