-- ===== src/Persistence/Snapshots/Tables.antt =====
-- Facts on the tables of src/persistence.rs, apart from any chat.
use tryst_core_portfolio.Prelude.{
  ℕ, ◌≤◌, ◌<◌, List, [], ◌∷◌, ◌++◌, some, ◌≡◌, refl, ap, ◌∙◌, sym, arith, All, append_assoc,
}
use tryst_core_portfolio.Persistence.Snapshots.{
  LogRow, find_document, log_rows, update_document, delete_log, concat_rows, last_id,
}

pub concat-append :
    {Key : Type 0} (xs ys : List (LogRow Key))
    → concat_rows (xs ++ ys) ≡ concat_rows xs ++ concat_rows ys
concat-append [] ys = refl
concat-append (x ∷ xs) ys =
    ap (◌++◌ x.content) (concat-append xs ys)
    ∙ sym (append_assoc x.content (concat_rows xs) (concat_rows ys))

module _ {Key : Type 0} where
  -- Rows in the order of their ids.
  abbrev pub Ascending : List (LogRow Key) → Type 0
  Ascending [] = Unit {0}
  Ascending (r ∷ rows) = All (λ s. r.id ≤ s.id) rows × Ascending rows

  abbrev pub UpTo : ℕ → List (LogRow Key) → Type 0
  UpTo n = All (λ r. r.id ≤ n)

  abbrev pub Above : ℕ → List (LogRow Key) → Type 0
  Above n = All (λ r. n < r.id)

module _ {Key : Type 0} (dec : Discrete Key) where
  pub log_rows-append :
      (k : Key) (xs ys : List (LogRow Key))
      → log_rows dec k (xs ++ ys) ≡ log_rows dec k xs ++ log_rows dec k ys
  unfolding log_rows
  log_rows-append k [] ys = refl
  log_rows-append k (x ∷ xs) ys = ground (arith, log_rows-append k xs ys)

  pub find-update :
      (k : Key) (d : List ℕ) (rows : List (Key × List ℕ)) (e : List ℕ)
      → find_document dec k rows ≡ some e
      → find_document dec k (update_document dec k d rows) ≡ some d
  unfolding find_document update_document
  find-update k d [] e h = cc
  find-update k d ((j, x) ∷ rows) e h = ground (arith, find-update k d rows e)

  pub log_rows-delete-UpTo :
      (k : Key) (n : ℕ) (xs : List (LogRow Key))
      → UpTo n (log_rows dec k xs)
      → log_rows dec k (delete_log dec k n xs) ≡ []
  unfolding log_rows delete_log
  log_rows-delete-UpTo k n [] h = refl
  log_rows-delete-UpTo k n (x ∷ xs) h = ground (arith, log_rows-delete-UpTo k n xs)

  pub log_rows-delete-Above :
      (k : Key) (n : ℕ) (xs : List (LogRow Key))
      → Above n xs
      → log_rows dec k (delete_log dec k n xs) ≡ log_rows dec k xs
  unfolding log_rows delete_log
  log_rows-delete-Above k n [] h = refl
  log_rows-delete-Above k n (x ∷ xs) h = ground (arith, log_rows-delete-Above k n xs)

  pub delete-append :
      (k : Key) (n : ℕ) (xs ys : List (LogRow Key))
      → delete_log dec k n (xs ++ ys) ≡ delete_log dec k n xs ++ delete_log dec k n ys
  unfolding delete_log
  delete-append k n [] ys = refl
  delete-append k n (x ∷ xs) ys = ground (arith, delete-append k n xs ys)

  All-log_rows :
      (n : ℕ) (k : Key) (xs : List (LogRow Key))
      → All (λ s. n ≤ s.id) xs
      → All (λ s. n ≤ s.id) (log_rows dec k xs)
  unfolding log_rows
  All-log_rows n k [] h = tt
  All-log_rows n k (x ∷ xs) h = ground (arith, All-log_rows n k xs)

  pub log_rows-Ascending :
      (k : Key) (xs : List (LogRow Key)) → Ascending xs → Ascending (log_rows dec k xs)
  unfolding log_rows
  log_rows-Ascending k [] h = tt
  log_rows-Ascending k (x ∷ xs) h = ground (arith, log_rows-Ascending k xs, All-log_rows x.id k xs)

last_id-ge :
    {Key : Type 0} (n : ℕ) (x : LogRow Key) (xs : List (LogRow Key))
    → All (λ s. n ≤ s.id) (x ∷ xs)
    → n ≤ last_id (x ∷ xs)
last_id-ge n x [] h = h.0
last_id-ge n x (y ∷ xs) h = last_id-ge n y xs h.1

pub Ascending-UpTo : {Key : Type 0} (xs : List (LogRow Key)) → Ascending xs → UpTo (last_id xs) xs
Ascending-UpTo [] h = tt
Ascending-UpTo (x ∷ []) h = (omega arith, tt)
Ascending-UpTo (x ∷ y ∷ xs) h = (last_id-ge x.id y xs h.0, Ascending-UpTo (y ∷ xs) h.1)
