-- ===== src/Bench/Orchestrator/Main/Written.antt =====
-- Where `main` of src/bin/bench_orchestrator.rs takes its configuration from, and what it writes.
use tryst_core_portfolio.Prelude.{
  Text, ℕ, List, [], ◌∷◌, Option, none, some, Result, ok, err, ◌>>=◌, ◌≡◌, ap, sym, ◌∙◌, ◌⊎◌, inl,
  inr, All, arith, Option-cases, Result-cases, Bool-cases, subst,
}
use tryst_core_portfolio.Bench.Report.{lines}
use tryst_core_portfolio.Bench.Report.Reading.{Plain, lines-Plain}
use tryst_core_portfolio.Bench.Orchestrator.{Histogram}
use tryst_core_portfolio.Bench.Orchestrator.Main.{
  config_here, config_below, config_above, BenchConfig, MainError, config_not_found,
  config_not_opened, bad_config, not_written, first_that, beside, find_config, join_lines, Machine,
  all_results, main_at, main, or_error,
}

lines-join_lines :
    (row : Text) (rows : List Text)
    → All (All Plain) (row ∷ rows)
    → lines (join_lines (row ∷ rows)) ≡ row ∷ rows
unfolding join_lines lines
lines-join_lines row [] h = lines-Plain row [] h.0
lines-join_lines row (next ∷ rows) h =
    lines-Plain row (join_lines (next ∷ rows)) h.0 ∙ ap (◌∷◌ row) (lines-join_lines next rows h.1)

module _ {H : Type 0} (hist : Histogram H) (to_string ms_text : ℕ → Text) (m : Machine) where
  -- The texts of the rows have no line breaks.
  abbrev pub PlainRows : Type 0
  PlainRows =
      (config : BenchConfig) (rows : List Text)
      → all_results hist to_string ms_text m config ≡ ok rows
      → All (All Plain) rows

  abbrev listed : Option Text
  listed = first_that m.exists (config_here ∷ config_below ∷ config_above ∷ [])

  -- What `main` writes for a configuration at a path.
  abbrev pub Writes : Text → Result Text MainError → Type 0
  Writes path result =
      (file written : Text) × (config : BenchConfig) × (rows : List Text) × (m.open_file path
        ≡ some file)
      × (m.from_reader file ≡ some config)
      × (all_results hist to_string ms_text m config ≡ ok rows)
      × (result ≡ ok written)
      × (lines written ≡ rows)

  lines-all_results :
      (config : BenchConfig) (rows : List Text)
      → PlainRows
      → all_results hist to_string ms_text m config ≡ ok rows
      → lines (join_lines rows) ≡ rows
  lines-all_results config [] plain r = absurd (ground arith)
  lines-all_results config (row ∷ rows) plain r =
      lines-join_lines row rows (plain config (row ∷ rows) r)

  main_at_lem :
      (path : Text)
      → PlainRows
      → ((e : MainError) × (main_at hist to_string ms_text m path ≡ err e))
        ⊎ Writes path (main_at hist to_string ms_text m path)
  unfolding main_at
  main_at_lem path plain = elim (Option-cases (m.open_file path)) [
    | inl o ↦ inl (config_not_opened, ground arith)
    | inr (file, o) ↦ elim (Option-cases (m.from_reader file)) [
      | inl f ↦ inl (bad_config, ground arith)
      | inr (config, f) ↦ elim (Result-cases (all_results hist to_string ms_text m config)) [
        | inr (e, r) ↦ inl (e, ground arith)
        | inl (rows, r) ↦ elim (Bool-cases (m.write (join_lines rows))) [
          | inl w ↦ inr (
            file,
            join_lines rows,
            config,
            rows,
            o,
            f,
            r,
            ground arith,
            lines-all_results config rows plain r,
          )
          | inr w ↦ inl (not_written, ground arith)
        ]
      ]
    ]
  ]

  found : (path : Text) → listed ≡ some path → find_config m.exists m.alt_path ≡ some path
  unfolding find_config
  found path l = ground arith

  unlisted : listed ≡ none → find_config m.exists m.alt_path ≡ beside m.exists m.alt_path
  unfolding find_config
  unlisted l = ground arith

  from_config :
      (o : Option Text)
      → find_config m.exists m.alt_path ≡ o
      → main hist to_string ms_text m
        ≡ (or_error config_not_found o >>= main_at hist to_string ms_text m)
  unfolding main
  from_config o e = ap (λ x. or_error config_not_found x >>= main_at hist to_string ms_text m) e

  taken :
      (path : Text)
      → PlainRows
      → main hist to_string ms_text m ≡ main_at hist to_string ms_text m path
      → ((e : MainError) × (main hist to_string ms_text m ≡ err e))
        ⊎ Writes path (main hist to_string ms_text m)
  taken path plain e =
      subst (λ r. ((x : MainError) × (r ≡ err x)) ⊎ Writes path r) (sym e) (main_at_lem path plain)

  -- If no row has a line break in it: the configuration is the first of the three listed paths that
  -- exists, or else the one beside the executable, and where there is none `main` fails with that; for
  -- the path that it takes it fails, or it has written a file whose lines are the header and the rows
  -- of the measurements that the configuration asks for, in the order crypto, discovery, connections.
  pub main_lem :
      PlainRows
      → ((listed ≡ none)
          × (beside m.exists m.alt_path ≡ none)
          × (main hist to_string ms_text m ≡ err config_not_found))
        ⊎ ((path : Text) × ((listed ≡ some path)
              ⊎ ((listed ≡ none) × (beside m.exists m.alt_path ≡ some path)))
            × (((e : MainError) × (main hist to_string ms_text m ≡ err e))
                ⊎ Writes path (main hist to_string ms_text m)))
  main_lem plain = elim (Option-cases listed) [
    | inr (path, l) ↦ inr (path, inl l, taken path plain (from_config (some path) (found path l)))
    | inl l ↦ elim (Option-cases (beside m.exists m.alt_path)) [
      | inl b ↦ inl (l, b, from_config none (unlisted l ∙ b))
      | inr (path, b) ↦
          inr (path, inr (l, b), taken path plain (from_config (some path) (unlisted l ∙ b)))
    ]
  ]
