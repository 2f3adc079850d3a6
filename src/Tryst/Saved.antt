-- ===== src/Tryst/Saved.antt =====
-- What `save` of src/protocols/tryst/persistence.rs stores is what the queries read.
use tryst_core_portfolio.Prelude.{
  ℕ, ◌^◌, ◌<◌, List, [], ◌∷◌, Option, none, some, ◌≡◌, ◌≢◌, refl, ◌∙◌, sym, subst, Result-cases, ap,
  ok, err, length, arith, In, inl, inr, ◌⊎◌, ite,
}
use Prim.Native.String.{String}
use tryst_core_portfolio.Failure.{LibError, sqlx}
use tryst_core_portfolio.Tryst.{EpochSecret, StoredTryst, ratchet_if_needed}
use tryst_core_portfolio.Tryst.Rows.{
  Texts, RawTryst, as_i64, as_u64, secret_from, try_from, to_row, account_from, previous_from,
  map_option, upsert, save, find_id, finish, decoded, ratchet_and_save_tryst, get, decode_all,
  ratchet_all, get_all,
}

-- What the code relies on: an id's text reads back as the id.
pub record TextLaws {Uuid EndpointId Text : Type 0} (texts : Texts Uuid EndpointId Text)
    : Type 0 where
  pub uuid_reads : (u : Uuid) → texts.uuid_from_str (texts.uuid_text u) ≡ some u
  pub endpoint_reads : (e : EndpointId) → texts.endpoint_from_str (texts.endpoint_text e) ≡ some e

-- The bounds that the Rust types of a tryst carry: secrets of 32 bytes, and a u64.
pub record Sized {Uuid EndpointId : Type 0} (t : StoredTryst Uuid EndpointId) : Type 0 where
  pub current : length t.current_secret.bytes ≡ 32
  pub previous : (s : EpochSecret) → t.previous_secret ≡ some s → length s.bytes ≡ 32
  pub epoch : t.last_updated_epoch < 2 ^ 64

-- A u64 that is stored as an i64 comes back as it was, also from 2^63 on.
as_u64-as_i64 : (n : ℕ) → n < 2 ^ 64 → as_u64 (as_i64 n) ≡ n
unfolding as_u64 as_i64
as_u64-as_i64 n h = ground arith

module _ {Uuid EndpointId Text : Type 0} (texts : Texts Uuid EndpointId Text) where
  finish_lem :
      (after : Option String) (found : Option (StoredTryst Uuid EndpointId))
      (rows : List (RawTryst Text))
      → finish texts after found rows ≡ (found, rows)
  unfolding ratchet_and_save_tryst ratchet_if_needed
  finish_lem after none rows = refl
  finish_lem after (some t) rows = refl

  get_lem :
      (after : Option String) (u : Uuid) (rows : List (RawTryst Text))
      → get texts none after u rows
        ≡ ok (decoded texts (find_id texts (texts.uuid_text u) rows), rows)
  unfolding get
  get_lem after u rows =
      ap ok (finish_lem after (decoded texts (find_id texts (texts.uuid_text u) rows)) rows)

  ratchet_all_lem :
      (after : Option String) (ts : List (StoredTryst Uuid EndpointId))
      (rows : List (RawTryst Text))
      → ratchet_all texts after ts rows ≡ (ts, rows)
  unfolding ratchet_all ratchet_and_save_tryst ratchet_if_needed
  ratchet_all_lem after [] rows = refl
  ratchet_all_lem after (t ∷ ts) rows = ground (arith, ratchet_all_lem after ts rows)

  decode-cons :
      (r : RawTryst Text) (t : StoredTryst Uuid EndpointId) (rows : List (RawTryst Text))
      → try_from texts r ≡ ok t
      → decode_all texts (r ∷ rows) ≡ t ∷ decode_all texts rows
  unfolding decode_all
  decode-cons r t rows h = ground arith

  decode-skip :
      (r : RawTryst Text) (e : LibError) (rows : List (RawTryst Text))
      → try_from texts r ≡ err e
      → decode_all texts (r ∷ rows) ≡ decode_all texts rows
  unfolding decode_all
  decode-skip r e rows h = ground arith

  decode-later :
      (t : StoredTryst Uuid EndpointId) (r : RawTryst Text) (rows : List (RawTryst Text))
      → In t (decode_all texts rows)
      → In t (decode_all texts (r ∷ rows))
  decode-later t r rows i = elim (Result-cases (try_from texts r)) [
    | inl (u, e) ↦ subst (In t) (sym (decode-cons r u rows e)) (inr i)
    | inr (e, bad) ↦ subst (In t) (sym (decode-skip r e rows bad)) i
  ]

  upsert-cases :
      (row r : RawTryst Text) (rows : List (RawTryst Text))
      → (upsert texts row (r ∷ rows) ≡ row ∷ rows)
        ⊎ (upsert texts row (r ∷ rows) ≡ r ∷ upsert texts row rows)
  unfolding upsert
  upsert-cases row r rows =
      elim (texts.same_text r.id row.id)
        as (λ d.
          (ite d (row ∷ rows) (r ∷ upsert texts row rows) ≡ row ∷ rows)
          ⊎ (ite d (row ∷ rows) (r ∷ upsert texts row rows) ≡ r ∷ upsert texts row rows)) [
            | yes same ↦ inl refl
            | no other ↦ inr refl
          ]

module _ {Uuid EndpointId Text : Type 0} (texts : Texts Uuid EndpointId Text)
    (laws : TextLaws texts) where
  account_lem :
      (a : Option EndpointId) → account_from texts (map_option texts.endpoint_text a) ≡ ok a
  account_lem none = refl
  account_lem (some e) = rw (laws.endpoint_reads e) refl

  secret_lem : (s : EpochSecret) → length s.bytes ≡ 32 → secret_from s.bytes ≡ ok s
  unfolding secret_from
  secret_lem s h = rw (h) refl

  previous_lem :
      (p : Option EpochSecret)
      → ((s : EpochSecret) → p ≡ some s → length s.bytes ≡ 32)
      → previous_from texts (map_option (λ s. s.bytes) p) ≡ ok p
  previous_lem none h = refl
  previous_lem (some s) h = rw (secret_lem s (h s refl)) refl

  try_from-to_row :
      (t : StoredTryst Uuid EndpointId) → Sized t → try_from texts (to_row texts t) ≡ ok t
  unfolding try_from to_row
  try_from-to_row t s =
      rw
        (
          laws.uuid_reads t.id,
          account_lem t.account_id,
          secret_lem t.current_secret s.current,
          previous_lem t.previous_secret s.previous,
          as_u64-as_i64 t.last_updated_epoch s.epoch,
        )
        refl

  find-upsert :
      (row : RawTryst Text) (rows : List (RawTryst Text))
      → find_id texts row.id (upsert texts row rows) ≡ some row
  unfolding find_id upsert
  find-upsert row [] = ground arith
  find-upsert row (r ∷ rows) = ground (arith, find-upsert row rows)

  find-upsert_other :
      (s : Text) (row : RawTryst Text) (rows : List (RawTryst Text))
      → row.id ≢ s
      → find_id texts s (upsert texts row rows) ≡ find_id texts s rows
  unfolding find_id upsert
  find-upsert_other s row [] h = ground arith
  find-upsert_other s row (r ∷ rows) h = ground (arith, find-upsert_other s row rows h)

  In-upsert :
      (t : StoredTryst Uuid EndpointId) (rows : List (RawTryst Text))
      → Sized t
      → In t (decode_all texts (upsert texts (to_row texts t) rows))
  unfolding upsert
  In-upsert t [] s =
      subst (In t) (sym (decode-cons texts (to_row texts t) t [] (try_from-to_row t s))) (inl refl)
  In-upsert t (r ∷ rows) s =
      let row = to_row texts t in
      elim (upsert-cases texts row r rows) [
        | inl e ↦
            subst (λ rs. In t (decode_all texts rs)) (sym e)
              (subst (In t) (sym (decode-cons texts row t rows (try_from-to_row t s))) (inl refl))
        | inr e ↦
            subst (λ rs. In t (decode_all texts rs)) (sym e)
              (decode-later texts t r (upsert texts row rows) (In-upsert t rows s))
      ]

  decoded-to_row :
      (t : StoredTryst Uuid EndpointId) → Sized t → decoded texts (some (to_row texts t)) ≡ some t
  decoded-to_row t s = ground (arith, try_from-to_row t s)

  uuid_text-injective : (u v : Uuid) → u ≢ v → texts.uuid_text u ≢ texts.uuid_text v
  uuid_text-injective u v h e = ground (arith, laws.uuid_reads u, laws.uuid_reads v)

  -- A tryst that was saved, with secrets of 32 bytes and an epoch that is a u64, is read back as it
  -- was, whatever the table held; a tryst with another id is read as before; and a refused save
  -- reports the database's error.
  pub save-get :
      (refused after : Option String) (t : StoredTryst Uuid EndpointId)
      (rows : List (RawTryst Text))
      → Sized t
      → ((e : String) × (refused ≡ some e) × (save texts refused t rows ≡ err (sqlx e)))
        ⊎ ((rows' : List (RawTryst Text)) × (save texts refused t rows ≡ ok rows')
            × (get texts none after t.id rows' ≡ ok (some t, rows'))
            × ((u : Uuid)
                → t.id ≢ u
                → (found : Option (StoredTryst Uuid EndpointId))
                → get texts none after u rows ≡ ok (found, rows)
                → get texts none after u rows' ≡ ok (found, rows')))
  unfolding save
  save-get (some e) after t rows s = inl (e, refl, refl)
  save-get none after t rows s =
      let row = to_row texts t in
      inr (
        upsert texts row rows,
        refl,
        get_lem texts after t.id (upsert texts row rows)
            ∙ ap (λ o. ok (decoded texts o, upsert texts row rows)) (find-upsert row rows)
            ∙ ap (λ o. ok (o, upsert texts row rows)) (decoded-to_row t s),
        λ u h found g. ground (
          arith,
          get_lem texts after u rows,
          get_lem texts after u (upsert texts row rows),
          find-upsert_other (texts.uuid_text u) row rows (uuid_text-injective t.id u h),
        ),
      )

  -- A saved tryst is among those that `get_all` returns, whatever rows the table held, rows that are
  -- no trysts among them; and `get_all` changes nothing, since no tryst is ratcheted.
  save-get_all :
      (after : Option String) (t : StoredTryst Uuid EndpointId) (rows : List (RawTryst Text))
      → Sized t
      → (rows' : List (RawTryst Text)) × (ts : List (StoredTryst Uuid EndpointId)) × (save texts
            none t rows
          ≡ ok rows')
        × (get_all texts none after rows' ≡ ok (ts, rows'))
        × In t ts
  unfolding save get_all
  save-get_all after t rows s =
      let rows' = upsert texts (to_row texts t) rows in
      (
        rows',
        decode_all texts rows',
        refl,
        ap ok (ratchet_all_lem texts after (decode_all texts rows') rows'),
        In-upsert t rows s,
      )
