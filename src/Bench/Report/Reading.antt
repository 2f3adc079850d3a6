-- ===== src/Bench/Report/Reading.antt =====
-- What a worker reports, src/bench_utils.rs, is what the orchestrator reads.
use tryst_core_portfolio.Prelude.{
  Text, ℕ, ◌^◌, ◌<◌, ◌≤◌, Bool, true, List, [], ◌∷◌, ◌++◌, Option, none, some, ◌==◌, ◌&&◌,
  strip_prefix, ok, map, ◌≡◌, ◌≢◌, refl, ap, ◌∙◌, arith, All, append_assoc, Bool-cases, inl, inr,
}
use tryst_core_portfolio.Bench.Report.{
  result_prefix, join, report_result, lines, split, parse_all, read_lines, run_worker,
}

-- What the code relies on in the texts of numbers: they read back, and are decimal digits.
pub record NumberTexts (to_string : ℕ → Text) (parse : Text → Option ℕ) : Type 0 where
  pub reads : (n : ℕ) → n < 2 ^ 64 → parse (to_string n) ≡ some n
  pub digits : (n : ℕ) → All (λ c. (48 ≤ c) × (c ≤ 57)) (to_string n)

abbrev pub Plain : ℕ → Type 0
Plain c = (c ≢ 10) × (c ≢ 13)

-- A text of whole lines.
abbrev pub ends_line : Text → Bool
ends_line [] = true
ends_line (c ∷ []) = c == 10
ends_line (c ∷ d ∷ cs) = ends_line (d ∷ cs)

pub lines-Plain :
    (line after : Text) → All Plain line → lines (line ++ 10 ∷ after) ≡ line ∷ lines after
unfolding lines
lines-Plain [] after h = refl
lines-Plain (c ∷ line) after h = ground (arith, lines-Plain line after h.1, h.0)

lines_cons : (c : ℕ) (cs : Text) → (t : Text) × (ts : List Text) × (lines (c ∷ cs) ≡ t ∷ ts)
unfolding lines
lines_cons c [] = elim (Bool-cases (c == 10)) [
  | inl e ↦ ([], [], ground arith)
  | inr e ↦ (c ∷ [], [], ground arith)
]
lines_cons c (d ∷ cs) =
    let (t, ts, e) = lines_cons d cs in
    elim (Bool-cases (c == 10)) [
      | inl l ↦ ([], lines (d ∷ cs), ground arith)
      | inr l ↦ elim (Bool-cases ((c == 13) && (d == 10))) [
        | inl r ↦ (t, ts, ground arith)
        | inr r ↦ (c ∷ t, ts, ground arith)
      ]
    ]

lines_append :
    (before after : Text)
    → ends_line before ≡ true
    → lines (before ++ after) ≡ lines before ++ lines after
unfolding lines
lines_append [] after h = refl
lines_append (c ∷ []) after h = ground arith
lines_append (c ∷ d ∷ cs) after h =
    let (t, ts, e) = lines_cons d cs in let rest = lines_append (d ∷ cs) after h in ground arith

read_skip :
    (parse : Text → Option ℕ) (ls rest : List Text)
    → All (λ l. strip_prefix result_prefix l ≡ none) ls
    → read_lines parse (ls ++ rest) ≡ read_lines parse rest
unfolding read_lines
read_skip parse [] rest h = refl
read_skip parse (l ∷ ls) rest h = ground (arith, read_skip parse ls rest h.1, h.0)

split_digits :
    (t after : Text) → All (λ c. (48 ≤ c) × (c ≤ 57)) t → split (t ++ 44 ∷ after) ≡ t ∷ split after
unfolding split
split_digits [] after h = refl
split_digits (c ∷ t) after h = ground (arith, split_digits t after h.1, h.0)

split_last : (t : Text) → All (λ c. (48 ≤ c) × (c ≤ 57)) t → split t ≡ t ∷ []
unfolding split
split_last [] h = refl
split_last (c ∷ t) h = ground (arith, split_last t h.1, h.0)

split-join :
    {to_string : ℕ → Text} {parse : Text → Option ℕ}
    → NumberTexts to_string parse
    → (n : ℕ) (ns : List ℕ) → split (join (map to_string (n ∷ ns))) ≡ map to_string (n ∷ ns)
split-join {to_string} texts n [] = split_last (to_string n) (texts.digits n)
split-join {to_string} texts n (m ∷ ns) =
    split_digits (to_string n) (join (map to_string (m ∷ ns))) (texts.digits n)
    ∙ ap (◌∷◌ (to_string n)) (split-join texts m ns)

parse_map :
    {to_string : ℕ → Text} {parse : Text → Option ℕ}
    → NumberTexts to_string parse
    → (ns : List ℕ) → All (λ n. n < 2 ^ 64) ns
    → parse_all parse (map to_string ns) ≡ ok ns
unfolding parse_all
parse_map texts [] h = refl
parse_map texts (n ∷ ns) h = ground (arith, texts.reads n h.0, parse_map texts ns h.1)

digits-Plain : (t : Text) → All (λ c. (48 ≤ c) × (c ≤ 57)) t → All Plain t
digits-Plain [] h = tt
digits-Plain (c ∷ t) h =
    ((λ e. omega (arith, h.0.0), λ e. omega (arith, h.0.0)), digits-Plain t h.1)

Plain-append : (s t : Text) → All Plain s → All Plain t → All Plain (s ++ t)
Plain-append [] t g h = h
Plain-append (c ∷ s) t g h = (g.0, Plain-append s t g.1 h)

join-Plain :
    {to_string : ℕ → Text} {parse : Text → Option ℕ}
    → NumberTexts to_string parse
    → (ns : List ℕ) → All Plain (join (map to_string ns))
join-Plain texts [] = tt
join-Plain {to_string} texts (n ∷ []) = digits-Plain (to_string n) (texts.digits n)
join-Plain {to_string} texts (n ∷ m ∷ ns) =
    Plain-append (to_string n) (44 ∷ join (map to_string (m ∷ ns)))
      (digits-Plain (to_string n) (texts.digits n))
      ((λ e. omega arith, λ e. omega arith), join-Plain texts (m ∷ ns))

prefix-Plain : All Plain result_prefix
prefix-Plain = ground arith

read_result :
    (to_string : ℕ → Text) (parse : Text → Option ℕ)
    → NumberTexts to_string parse
    → (n : ℕ) (ns : List ℕ) (rest : List Text) → All (λ m. m < 2 ^ 64) (n ∷ ns)
    → read_lines parse ((result_prefix ++ join (map to_string (n ∷ ns))) ∷ rest) ≡ ok (n ∷ ns)
unfolding read_lines
read_result to_string parse texts n ns rest h =
    ap (parse_all parse) (split-join texts n ns) ∙ parse_map texts (n ∷ ns) h

-- If a worker has printed whole lines, none of which starts with "RESULT,", and then reports some
-- numbers, at least one and all below 2^64, the orchestrator reads exactly these numbers, whatever the
-- worker prints after them.
pub run_worker-report_result :
    (to_string : ℕ → Text) (parse : Text → Option ℕ)
    → NumberTexts to_string parse
    → (before after : Text) (n : ℕ) (ns : List ℕ) → ends_line before ≡ true
    → All (λ l. strip_prefix result_prefix l ≡ none) (lines before)
    → All (λ m. m < 2 ^ 64) (n ∷ ns)
    → run_worker parse (ok (before ++ (report_result to_string (n ∷ ns) ++ after))) ≡ ok (n ∷ ns)
unfolding run_worker report_result
run_worker-report_result to_string parse texts before after n ns whole none_before small =
    let numbers = join (map to_string (n ∷ ns)) in
    let line = result_prefix ++ numbers in
    let report = report_result to_string (n ∷ ns) in
    let shape : report ++ after ≡ line ++ 10 ∷ after =
      ap (λ t. result_prefix ++ t) (append_assoc numbers (10 ∷ []) after) in
    let plain = Plain-append result_prefix numbers prefix-Plain (join-Plain texts (n ∷ ns)) in
    let found : lines (before ++ (report ++ after)) ≡ lines before ++ line ∷ lines after =
      lines_append before (report ++ after) whole
      ∙ ap (λ t. lines before ++ lines t) shape
      ∙ ap (λ t. lines before ++ t) (lines-Plain line after plain) in
    ap (read_lines parse) found
    ∙ read_skip parse (lines before) (line ∷ lines after) none_before
    ∙ read_result to_string parse texts n ns (lines after) small
