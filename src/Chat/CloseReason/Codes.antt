-- ===== src/Chat/CloseReason/Codes.antt =====
-- The codes of src/protocols/chat/protocol_handler.rs tell the reasons apart.
use tryst_core_portfolio.Prelude.{ℕ, ◌≡◌, ◌↔◌, ◌⊎◌, inl, inr, ok, err, arith, Bool-cases, ◌==◌}
use tryst_core_portfolio.Chat.CloseReason.{
  ConnectionCloseReason, normal, invalid_open_message, stream_read_failed, stream_write_failed,
  invalid_code, to_code_reason, try_from,
}

known_or_invalid :
    (value : ℕ)
    → (try_from value ≡ err (invalid_code value))
      ⊎ ((q : ConnectionCloseReason) × ((to_code_reason q).0 ≡ value))
unfolding to_code_reason try_from
known_or_invalid value = elim (Bool-cases (value == 0)) [
  | inl e ↦ inr (normal, ground arith)
  | inr a ↦ elim (Bool-cases (value == 1001)) [
    | inl e ↦ inr (invalid_open_message, ground arith)
    | inr b ↦ elim (Bool-cases (value == 1002)) [
      | inl e ↦ inr (stream_read_failed, ground arith)
      | inr c ↦ elim (Bool-cases (value == 1003)) [
        | inl e ↦ inr (stream_write_failed, ground arith)
        | inr d ↦ inl (ground arith)
      ]
    ]
  ]
]

-- A code decodes to a reason exactly when it is the code of that reason, and a code that does not
-- decode to the error that carries it is the code of some reason.
try_from_lem :
    (value : ℕ) (r : ConnectionCloseReason)
    → ((try_from value ≡ ok r) ↔ ((to_code_reason r).0 ≡ value))
      × ((try_from value ≡ err (invalid_code value))
          ⊎ ((q : ConnectionCloseReason) × ((to_code_reason q).0 ≡ value)))
unfolding to_code_reason try_from
try_from_lem value r = ((λ e. ground arith, λ e. ground arith), known_or_invalid value)
