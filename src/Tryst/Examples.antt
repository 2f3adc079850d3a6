-- ===== src/Tryst/Examples.antt =====
-- The theorems on trysts and invites at concrete inputs; an id is a number, and its text the
-- number, or the list of the number alone.
use tryst_core_portfolio.Prelude.{
  ℕ, zero, suc, true, false, List, [], ◌∷◌, Option, none, some, ◌≡◌, ◌≢◌, refl, ◌⊎◌, ok, err,
  ℕ_discrete, arith,
}
use Prim.Native.String.{String}
use tryst_core_portfolio.Failure.{sqlx}
use tryst_core_portfolio.Tryst.{StoredTryst}
use tryst_core_portfolio.Tryst.Rows.{Texts, RawTryst, pos, save, get}
use tryst_core_portfolio.Tryst.Saved.{TextLaws, Sized, save-get}

abbrev numerals : Texts ℕ ℕ ℕ
numerals = record {
  same_text = ℕ_discrete;
  uuid_text = λ n. n;
  uuid_from_str = λ n. some n;
  endpoint_text = λ n. n;
  endpoint_from_str = λ n. some n;
}

numerals_laws : TextLaws numerals
numerals_laws = record { uuid_reads = λ n. refl; endpoint_reads = λ n. refl }

abbrev times : ℕ → ℕ → List ℕ
times zero b = []
times (suc n) b = b ∷ times n b

abbrev tryst : StoredTryst ℕ ℕ
tryst = record {
  id = 4;
  account_id = some 2;
  current_secret = record { bytes = times 32 1 };
  previous_secret = some (record { bytes = times 32 0 });
  last_updated_epoch = 18446744073709551615;
  is_verified = true;
}

tryst-Sized : Sized tryst
tryst-Sized = record { current = refl; previous = λ s e. ground (arith); epoch = omega arith }

-- A row whose secret is too short, and an older row of the tryst.
abbrev old_rows : List (RawTryst ℕ)
old_rows =
    record {
      id = 9;
      account_id = none;
      current_secret = 1 ∷ [];
      previous_secret = none;
      last_updated_epoch = pos 0;
      is_verified = false;
    }
    ∷ record {
      id = 4;
      account_id = none;
      current_secret = times 32 5;
      previous_secret = none;
      last_updated_epoch = pos 0;
      is_verified = false;
    }
    ∷ []

abbrev no_error : Option String
no_error = none

save-get_example :
    ((e : String) × (no_error ≡ some e) × (save numerals no_error tryst old_rows ≡ err (sqlx e)))
    ⊎ ((rows' : List (RawTryst ℕ)) × (save numerals no_error tryst old_rows ≡ ok rows')
        × (get numerals none no_error 4 rows' ≡ ok (some tryst, rows'))
        × ((u : ℕ)
            → 4 ≢ u
            → (found : Option (StoredTryst ℕ ℕ))
            → get numerals none no_error u old_rows ≡ ok (found, old_rows)
            → get numerals none no_error u rows' ≡ ok (found, rows')))
save-get_example = save-get numerals numerals_laws no_error no_error tryst old_rows tryst-Sized
