-- ===== src/Bench/Report.antt =====
-- A worker's report: `report_result` of src/bench_utils.rs prints it, and `run_worker` of
-- src/bin/bench_orchestrator.rs reads it from the worker's output.
--
-- A text is the list of its characters' code points. `to_string` and `parse` are the standard library's
-- for u64. Starting the worker and waiting for it is a parameter: its output, or an error.
pub mod Reading
pub mod Examples
use tryst_core_portfolio.Prelude.{
  Text, ℕ, Bool, true, false, List, [], ◌∷◌, ◌++◌, Option, none, some, if◌then◌else◌, ◌==◌, ◌&&◌,
  strip_prefix, Result, ok, err, ◌>>=◌, map, ◌≡◌,
}

pub data WorkerError : Type 0 where
  not_run bad_number no_result : WorkerError

-- "RESULT,".
abbrev pub result_prefix : Text
result_prefix = 82 ∷ 69 ∷ 83 ∷ 85 ∷ 76 ∷ 84 ∷ 44 ∷ []

-- `join(",")`.
abbrev pub join : List Text → Text
join [] = []
join (t ∷ []) = t
join (t ∷ u ∷ ts) = t ++ 44 ∷ join (u ∷ ts)

-- `report_result`, with the line break of `println!`.
unfoldable pub report_result : (ℕ → Text) → List ℕ → Text
report_result to_string parts = result_prefix ++ join (map to_string parts) ++ 10 ∷ []

abbrev pub cons_first : ℕ → List Text → List Text
cons_first c [] = (c ∷ []) ∷ []
cons_first c (t ∷ ts) = (c ∷ t) ∷ ts

abbrev pub starts_line_feed : Text → Bool
starts_line_feed [] = false
starts_line_feed (c ∷ _) = c == 10

-- `lines`: a line ends with a line feed, and a carriage return in front of that is not in it.
unfoldable pub lines : Text → List Text
lines [] = []
lines (c ∷ cs) =
    let rest = lines cs in
    if c == 10
    then [] ∷ rest
    else if (c == 13) && starts_line_feed cs
    then rest
    else cons_first c rest

-- `split(',')`.
unfoldable pub split : Text → List Text
split [] = [] ∷ []
split (c ∷ cs) = let rest = split cs in if c == 44 then [] ∷ rest else cons_first c rest

unfoldable pub parse_all : (Text → Option ℕ) → List Text → Result (List ℕ) WorkerError
parse_all parse [] = ok []
parse_all parse (t ∷ ts) =
    let rest = parse_all parse ts in
    elim (parse t) [ none ↦ err bad_number | some n ↦ rest >>= λ ns. ok (n ∷ ns) ]

-- The loop over the lines of the output.
unfoldable pub read_lines : (Text → Option ℕ) → List Text → Result (List ℕ) WorkerError
unfolding split parse_all
read_lines parse [] = err no_result
read_lines parse (line ∷ rest) =
    let later = read_lines parse rest in
    elim (strip_prefix result_prefix line) [
      | none ↦ later
      | some numbers ↦ parse_all parse (split numbers)
    ]

-- `run_worker`.
unfoldable pub run_worker :
    (Text → Option ℕ) → Result Text WorkerError → Result (List ℕ) WorkerError
unfolding lines read_lines
run_worker parse output = output >>= λ stdout. read_lines parse (lines stdout)
