-- ===== src/Tryst/Rows.antt =====
-- The table of src/protocols/tryst/persistence.rs: a row is a `RawTryst`, and `id` is its key.
--
-- Rows stand in the order in which they were first inserted, which is the order that a query
-- returns them in here; `refused` and `unread` hold the error if the database refuses a statement.
-- The unique index on `account_id` is not modelled: a row that it keeps out is one of those that
-- `refused` stands for.
use tryst_core_portfolio.Prelude.{
  ℕ, ◌-◌, ◌^◌, Bool, true, false, List, [], ◌∷◌, Option, none, some, if◌then◌else◌, ◌==◌, ltb,
  Result, ok, err, ◌>>=◌, map_err, length, ite,
}
use Prim.Native.String.{String}
use tryst_core_portfolio.Failure.{LibError, unexpected, sqlx}
use tryst_core_portfolio.Tryst.{EpochSecret, StoredTryst, ratchet_if_needed}

-- The texts of the ids, by the uuid and iroh libraries.
pub record Texts (Uuid EndpointId Text : Type 0) : Type 0 where
  pub same_text : Discrete Text
  pub uuid_text : Uuid → Text
  pub uuid_from_str : Text → Option Uuid
  pub endpoint_text : EndpointId → Text
  pub endpoint_from_str : Text → Option EndpointId

-- An integer of the database, with 64 bits.
pub data ℤ : Type 0 where
  pos negsuc : ℕ → ℤ

-- `as i64` of a u64, and `as u64` of an i64.
unfoldable pub as_i64 : ℕ → ℤ
as_i64 n = if ltb n (2 ^ 63) then pos n else negsuc (2 ^ 64 - 1 - n)

unfoldable pub as_u64 : ℤ → ℕ
as_u64 (pos n) = n
as_u64 (negsuc n) = 2 ^ 64 - 1 - n

pub record RawTryst (Text : Type 0) : Type 0 where
  pub id : Text
  pub account_id : Option Text
  pub current_secret : List ℕ
  pub previous_secret : Option (List ℕ)
  pub last_updated_epoch : ℤ
  pub is_verified : Bool

-- `try_into` of bytes to an array of 32.
unfoldable pub secret_from : List ℕ → Result EpochSecret LibError
secret_from bytes =
    if length bytes == 32
    then ok (record { bytes = bytes })
    else err (unexpected "Invalid secret length")

abbrev pub guard : Option String → Result (Unit {0}) LibError
guard none = ok tt
guard (some e) = err (sqlx e)

abbrev pub map_option : {A B : Type 0} → (A → B) → Option A → Option B
map_option f none = none
map_option f (some a) = some (f a)

abbrev ok_or : {A : Type 0} → LibError → Option A → Result A LibError
ok_or e none = err e
ok_or e (some a) = ok a

module _ {Uuid EndpointId Text : Type 0} (texts : Texts Uuid EndpointId Text) where
  open texts use {same_text, uuid_text, uuid_from_str, endpoint_text, endpoint_from_str}

  abbrev pub account_from : Option Text → Result (Option EndpointId) LibError
  account_from none = ok none
  account_from (some s) = do
    id ← ok_or (unexpected "Invalid EndpointId in DB") (endpoint_from_str s)
    ok (some id)

  abbrev pub previous_from : Option (List ℕ) → Result (Option EpochSecret) LibError
  previous_from none = ok none
  previous_from (some bytes) = do
    secret ← map_err (λ _. unexpected "Invalid previous secret length") (secret_from bytes)
    ok (some secret)

  -- `TryFrom<RawTryst> for StoredTryst`.
  unfoldable pub try_from : RawTryst Text → Result (StoredTryst Uuid EndpointId) LibError
  unfolding secret_from as_u64
  try_from row = do
    id ← ok_or (unexpected "Invalid UUID in DB") (uuid_from_str row.id)
    account_id ← account_from row.account_id
    current_secret ← secret_from row.current_secret
    previous_secret ← previous_from row.previous_secret
    ok (record {
      id = id;
      account_id = account_id;
      current_secret = current_secret;
      previous_secret = previous_secret;
      last_updated_epoch = as_u64 row.last_updated_epoch;
      is_verified = row.is_verified;
    })

  -- The values that `save` binds.
  unfoldable pub to_row : StoredTryst Uuid EndpointId → RawTryst Text
  unfolding as_i64
  to_row t = record {
    id = uuid_text t.id;
    account_id = map_option endpoint_text t.account_id;
    current_secret = t.current_secret.bytes;
    previous_secret = map_option (λ s. s.bytes) t.previous_secret;
    last_updated_epoch = as_i64 t.last_updated_epoch;
    is_verified = t.is_verified;
  }

  -- `INSERT ... ON CONFLICT(id) DO UPDATE SET` each column to the new value.
  unfoldable pub upsert : RawTryst Text → List (RawTryst Text) → List (RawTryst Text)
  upsert row [] = row ∷ []
  upsert row (r ∷ rows) = ite (same_text r.id row.id) (row ∷ rows) (r ∷ upsert row rows)

  -- `save`.
  unfoldable pub save :
      Option String
      → StoredTryst Uuid EndpointId
      → List (RawTryst Text)
      → Result (List (RawTryst Text)) LibError
  unfolding to_row upsert
  save refused t rows = do _ ← guard refused; ok (upsert (to_row t) rows)

  -- `SELECT ... WHERE id = ?` and `WHERE account_id = ?`, with `fetch_optional`.
  unfoldable pub find_id : Text → List (RawTryst Text) → Option (RawTryst Text)
  find_id s [] = none
  find_id s (r ∷ rows) = ite (same_text r.id s) (some r) (find_id s rows)

  abbrev has_account : Text → Option Text → Bool
  has_account s none = false
  has_account s (some a) = ite (same_text a s) true false

  unfoldable pub find_account : Text → List (RawTryst Text) → Option (RawTryst Text)
  find_account s [] = none
  find_account s (r ∷ rows) = if has_account s r.account_id then some r else find_account s rows

  -- `and_then`: a row that is no tryst counts as none.
  abbrev pub decoded : Option (RawTryst Text) → Option (StoredTryst Uuid EndpointId)
  decoded none = none
  decoded (some row) = elim (try_from row) [ ok t ↦ some t | err _ ↦ none ]

  -- `ratchet_and_save_tryst`: a save that is refused is logged.
  unfoldable pub ratchet_and_save_tryst :
      Option String
      → StoredTryst Uuid EndpointId
      → List (RawTryst Text)
      → StoredTryst Uuid EndpointId × List (RawTryst Text)
  unfolding ratchet_if_needed save
  ratchet_and_save_tryst refused t rows =
      let (t', ratcheted) = ratchet_if_needed t in
      if ratcheted
      then elim (save refused t' rows) [ ok rows' ↦ (t', rows') | err _ ↦ (t', rows) ]
      else (t', rows)

  abbrev pub finish :
      Option String
      → Option (StoredTryst Uuid EndpointId)
      → List (RawTryst Text)
      → Option (StoredTryst Uuid EndpointId) × List (RawTryst Text)
  finish refused none rows = (none, rows)
  finish refused (some t) rows =
      let (t', rows') = ratchet_and_save_tryst refused t rows in (some t', rows')

  -- `get` and `get_by_account_id`; `refused` is about the save behind the query.
  unfoldable pub get :
      Option String
      → Option String
      → Uuid
      → List (RawTryst Text)
      → Result (Option (StoredTryst Uuid EndpointId) × List (RawTryst Text)) LibError
  unfolding find_id try_from ratchet_and_save_tryst
  get unread refused id rows = do
    _ ← guard unread
    ok (finish refused (decoded (find_id (uuid_text id) rows)) rows)

  unfoldable pub get_by_account_id :
      Option String
      → Option String
      → EndpointId
      → List (RawTryst Text)
      → Result (Option (StoredTryst Uuid EndpointId) × List (RawTryst Text)) LibError
  unfolding find_account try_from ratchet_and_save_tryst
  get_by_account_id unread refused id rows = do
    _ ← guard unread
    ok (finish refused (decoded (find_account (endpoint_text id) rows)) rows)

  -- `filter_map` of `get_all`, and its loop over the trysts.
  unfoldable pub decode_all : List (RawTryst Text) → List (StoredTryst Uuid EndpointId)
  unfolding try_from
  decode_all [] = []
  decode_all (r ∷ rows) =
      let rest = decode_all rows in elim (try_from r) [ ok t ↦ t ∷ rest | err _ ↦ rest ]

  unfoldable pub ratchet_all :
      Option String
      → List (StoredTryst Uuid EndpointId)
      → List (RawTryst Text)
      → List (StoredTryst Uuid EndpointId) × List (RawTryst Text)
  unfolding ratchet_and_save_tryst
  ratchet_all refused [] rows = ([], rows)
  ratchet_all refused (t ∷ ts) rows =
      let (t', rows') = ratchet_and_save_tryst refused t rows in
      let (ts', rows'') = ratchet_all refused ts rows' in (t' ∷ ts', rows'')

  unfoldable pub get_all :
      Option String
      → Option String
      → List (RawTryst Text)
      → Result (List (StoredTryst Uuid EndpointId) × List (RawTryst Text)) LibError
  unfolding decode_all ratchet_all
  get_all unread refused rows = do _ ← guard unread; ok (ratchet_all refused (decode_all rows) rows)
