-- ===== src/App/Keys.antt =====
-- The texts of secret keys in src/app.rs. `HEXLOWER` is data_encoding's, the bytes of a key iroh's.
use tryst_core_portfolio.Prelude.{
  ℕ, List, Option, none, some, if◌then◌else◌, ◌==◌, length, Result, ok, err, ◌≡◌, arith,
}

pub record Hex : Type 0 where
  pub encode : List ℕ → List ℕ
  pub decode : List ℕ → Option (List ℕ)

pub data KeyError : Type 0 where
  not_hex wrong_length : KeyError

module _ {SecretKey : Type 0} (hex : Hex) (to_bytes : SecretKey → List ℕ)
    (from_bytes : List ℕ → SecretKey) where
  -- `generate_private_key`, of the key that was drawn.
  unfoldable pub generate_private_key : SecretKey → List ℕ
  generate_private_key secret_key = hex.encode (to_bytes secret_key)

  abbrev key_of_bytes : List ℕ → Result SecretKey KeyError
  key_of_bytes bytes = if length bytes == 32 then ok (from_bytes bytes) else err wrong_length

  -- `secret_key_from_hex_lower`.
  unfoldable pub secret_key_from_hex_lower : List ℕ → Result SecretKey KeyError
  secret_key_from_hex_lower secret_key_str = elim (hex.decode secret_key_str) [
    | none ↦ err not_hex
    | some bytes ↦ key_of_bytes bytes
  ]

  -- A key that was generated is read back.
  secret_key-generate :
      (key : SecretKey)
      → hex.decode (hex.encode (to_bytes key)) ≡ some (to_bytes key)
      → length (to_bytes key) ≡ 32
      → from_bytes (to_bytes key) ≡ key
      → secret_key_from_hex_lower (generate_private_key key) ≡ ok key
  unfolding secret_key_from_hex_lower generate_private_key
  secret_key-generate key d l f = ground arith
