-- ===== src/Tryst/Invite.antt =====
-- The invites of src/protocols/tryst/invite.rs, as the repository's stub makes and reads them. A
-- text is the list of its code points; the text of a public key is the iroh library's.
use tryst_core_portfolio.Prelude.{
  strip_prefix, ℕ, List, [], ◌∷◌, ◌++◌, Option, none, some, Result, ok, err, ◌≡◌, refl, ◌⊎◌, inl,
  inr, arith, Option-cases,
}
use tryst_core_portfolio.Failure.{LibError, unexpected}

-- "gossip://invite/stub/".
abbrev pub invite_prefix : List ℕ
invite_prefix =
    103 ∷ 111 ∷ 115 ∷ 115 ∷ 105 ∷ 112 ∷ 58 ∷ 47 ∷ 47 ∷ 105 ∷ 110 ∷ 118 ∷ 105 ∷ 116 ∷ 101 ∷ 47 ∷ 115
    ∷ 116 ∷ 117 ∷ 98 ∷ 47 ∷ []

abbrev pub no_invite : LibError
no_invite = unexpected "Invalid or unsupported invitation format in this public snapshot."

module _ {PublicKey : Type 0} (text_of : PublicKey → List ℕ)
    (from_str : List ℕ → Option PublicKey) where
  -- `create_invite_str`, of the public key that belongs to the manager's secret key.
  unfoldable pub create_invite_str : PublicKey → List ℕ
  create_invite_str public = invite_prefix ++ text_of public

  abbrev parsed : Option PublicKey → Result PublicKey LibError
  parsed none = err no_invite
  parsed (some pk) = ok pk

  -- `receive_invite_str`.
  unfoldable pub receive_invite_str : List ℕ → Result PublicKey LibError
  receive_invite_str invite_str = elim (strip_prefix invite_prefix invite_str) [
    | none ↦ err no_invite
    | some pk_str ↦ parsed (from_str pk_str)
  ]

strip-append : (ps cs : List ℕ) → strip_prefix ps (ps ++ cs) ≡ some cs
strip-append [] cs = refl
strip-append (p ∷ ps) cs = ground (arith, strip-append ps cs)

strip_prefix_lem : (ps text cs : List ℕ) → strip_prefix ps text ≡ some cs → text ≡ ps ++ cs
strip_prefix_lem [] text cs h = ground arith
strip_prefix_lem (p ∷ ps) [] cs h = ground arith
strip_prefix_lem (p ∷ ps) (c ∷ text) cs h = ground (arith, strip_prefix_lem ps text cs)

module _ {PublicKey : Type 0} (text_of : PublicKey → List ℕ)
    (from_str : List ℕ → Option PublicKey) where
  -- If the text of a key reads back as the key, then the invite that a peer creates is read as this
  -- peer's key.
  pub receive-create :
      (public : PublicKey)
      → from_str (text_of public) ≡ some public
      → receive_invite_str text_of from_str (create_invite_str text_of from_str public) ≡ ok public
  unfolding receive_invite_str create_invite_str
  receive-create public h = rw (h) refl

  -- A text is read as a key only if it is the prefix and then a text of that key; every other text
  -- gives the one error.
  receive_invite_str_lem :
      (text : List ℕ)
      → ((public : PublicKey) × (pk_str : List ℕ) × (receive_invite_str text_of from_str text
            ≡ ok public)
          × (text ≡ invite_prefix ++ pk_str)
          × (from_str pk_str ≡ some public))
        ⊎ ((receive_invite_str text_of from_str text ≡ err no_invite)
            × ((pk_str : List ℕ) → text ≡ invite_prefix ++ pk_str → from_str pk_str ≡ none))
  unfolding receive_invite_str
  receive_invite_str_lem text = elim (Option-cases (strip_prefix invite_prefix text)) [
    | inl other ↦
        inr (rw (other) refl, λ pk_str e. ground (arith, strip-append invite_prefix pk_str))
    | inr (cs, stripped) ↦ elim (Option-cases (from_str cs)) [
      | inl unknown ↦ inr (
        rw (stripped, unknown) refl,
        λ pk_str e. ground (arith, strip-append invite_prefix pk_str),
      )
      | inr (public, read) ↦ inl (
        public,
        cs,
        rw (stripped, read) refl,
        strip_prefix_lem invite_prefix text cs stripped,
        read,
      )
    ]
  ]
