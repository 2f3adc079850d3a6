-- ===== src/Bench/Bandwidth.antt =====
-- `wait_for_bandwidth_stabilization` and `get_bandwidth_bytes` of src/bench_utils.rs.
--
-- What `get_bandwidth_bytes` returns at each of the calls is the parameter `bandwidth_bytes`. A u64 wraps
-- around in a release build, and so does the sum here.
use tryst_core_portfolio.Prelude.{
  Text, [], ◌∷◌, Option, none, some, ℕ, zero, suc, ◌+◌, ◌-◌, ◌≤◌, ◌<◌, ◌%◌, ◌^◌, max, if◌then◌else◌,
  ◌==◌, leb, ◌≡◌, refl, ◌⊎◌, inl, inr, arith, Bool-cases, subst,
}

-- What is read of one of the kernel's counters: `read_to_string`, `unwrap_or_else`, `trim`, `parse` and
-- `unwrap_or`.
abbrev pub counter : (trim : Text → Text) (parse : Text → Option ℕ) → Option Text → ℕ
counter trim parse file = elim (parse (trim (elim file [ none ↦ 48 ∷ [] | some text ↦ text ]))) [
  | none ↦ 0
  | some n ↦ n
]

-- `get_bandwidth_bytes` on Linux, for the two files of counters.
abbrev pub get_bandwidth_bytes :
    (trim : Text → Text) (parse : Text → Option ℕ) → (rx_bytes tx_bytes : Option Text) → ℕ × ℕ
get_bandwidth_bytes trim parse rx_bytes tx_bytes =
    (counter trim parse rx_bytes, counter trim parse tx_bytes)

module _ (bandwidth_bytes : ℕ → ℕ × ℕ) where
  abbrev pub current_total : ℕ → ℕ
  current_total i = ((bandwidth_bytes i).0 + (bandwidth_bytes i).1) % 2 ^ 64

  -- The loop with some rounds left; `i` are over.
  rounds : ℕ → ℕ → ℕ → ℕ → ℕ → ℕ
  rounds zero i max_bytes previous_total silent_intervals = max_bytes
  rounds (suc left) i max_bytes previous_total silent_intervals =
      let total = current_total i in
      let max_bytes' = max max_bytes total in
      let quiet = rounds left (suc i) max_bytes' total (suc silent_intervals) in
      let busy = rounds left (suc i) max_bytes' total 0 in
      if total - previous_total == 0
      then (if leb 3 (suc silent_intervals) then max_bytes' else quiet)
      else busy

  -- `wait_for_bandwidth_stabilization`.
  unfoldable pub wait_for_bandwidth_stabilization : ℕ
  unfolding rounds
  wait_for_bandwidth_stabilization = rounds 20 0 0 0 0

  -- The greatest of the first totals.
  abbrev pub greatest : ℕ → ℕ
  greatest zero = 0
  greatest (suc i) = max (greatest i) (current_total i)

  abbrev pub total_before : ℕ → ℕ
  total_before zero = 0
  total_before (suc i) = current_total i

  -- The `s` rounds before the round `i` brought no more bytes than those before them.
  abbrev pub Silent : ℕ → ℕ → Type 0
  Silent i zero = Unit {0}
  Silent zero (suc s) = ⊥
  Silent (suc i) (suc s) = (current_total i ≤ total_before i) × Silent i s

  Silent-less : (i s : ℕ) → Silent i (suc s) → Silent i s
  Silent-less i zero h = tt
  Silent-less zero (suc s) h = h
  Silent-less (suc i) (suc s) h = (h.0, Silent-less i s h.1)

  -- A silence of at most two rounds is none of three.
  not_three : (i s : ℕ) → s ≤ 2 → (Silent i (suc s) → ⊥) → Silent i 3 → ⊥
  not_three i zero l longest h = longest (Silent-less i 1 (Silent-less i 2 h))
  not_three i (suc zero) l longest h = longest (Silent-less i 2 h)
  not_three i (suc (suc zero)) l longest h = longest h
  not_three i (suc (suc (suc s))) l longest h = absurd (omega arith)

  -- No three silent rounds end at or before this one.
  abbrev Unsettled : ℕ → Type 0
  Unsettled i = (j : ℕ) → j ≤ i → Silent j 3 → ⊥

  next-Unsettled : (i : ℕ) → Unsettled i → (Silent (suc i) 3 → ⊥) → Unsettled (suc i)
  next-Unsettled i u n j l h = elim (Bool-cases (leb j i)) [
    | inl earlier ↦ u j (ground arith) h
    | inr now ↦ let e : j ≡ suc i = ground arith in n (subst (λ x. Silent x 3) e h)
  ]

  -- How the loop ends: after twenty rounds, or after the first three silent ones in a row.
  abbrev pub Ends : ℕ → Type 0
  Ends k = (k ≤ 20) × ((k ≡ 20) ⊎ Silent k 3) × ((j : ℕ) → j < k → Silent j 3 → ⊥)

  -- `s` is the length of the silence that goes on.
  rounds_lem :
      (left i s : ℕ)
      → left + i ≡ 20
      → Silent i s
      → (Silent i (suc s) → ⊥)
      → s ≤ 2
      → Unsettled i
      → (k : ℕ) × Ends k × (rounds left i (greatest i) (total_before i) s ≡ greatest k)
  unfolding rounds
  rounds_lem zero i s n h longest l u =
      (i, (omega arith, inl (omega arith), λ j b. u j (omega arith)), refl)
  rounds_lem (suc left) i s n h longest l u =
      elim (Bool-cases (current_total i - total_before i == 0)) [
        | inl still ↦
            let less : current_total i ≤ total_before i = ground arith in
            elim (Bool-cases (leb 3 (suc s))) [
              | inl third ↦
                  let e : s ≡ 2 = ground arith in
                  let three : Silent (suc i) 3 = (less, subst (Silent i) e h) in
                  (
                    suc i,
                    (omega arith, inr three, λ j b. u j (omega arith)),
                    rw (still, third) refl,
                  )
              | inr sooner ↦
                  let fits : suc s ≤ 2 = ground arith in
                  let longest' : Silent (suc i) (suc (suc s)) → ⊥ = λ x. longest x.1 in
                  let (k, b, q) =
                    rounds_lem left (suc i) (suc s) (omega arith) (less, h) longest' fits
                      (next-Unsettled i u (not_three (suc i) (suc s) fits longest')) in
                  (k, b, rw (still, sooner) q)
            ]
        | inr more ↦
            let longest' : Silent (suc i) 1 → ⊥ = λ x. ground (arith, x.0) in
            let (k, b, q) =
              rounds_lem left (suc i) 0 (omega arith) tt longest' (omega arith)
                (next-Unsettled i u (not_three (suc i) 0 (omega arith) longest')) in
            (k, b, rw more q)
      ]

  none_yet : Unsettled 0
  none_yet zero l h = h
  none_yet (suc j) l h = absurd (omega arith)

  -- The loop returns the greatest of the totals that it takes, and it takes twenty, or just so many
  -- that for the first time the last three did not grow.
  pub wait_for_bandwidth_stabilization_lem :
      (k : ℕ) × Ends k × (wait_for_bandwidth_stabilization ≡ greatest k)
  unfolding wait_for_bandwidth_stabilization
  wait_for_bandwidth_stabilization_lem =
      rounds_lem 20 0 0 (omega arith) tt (λ x. x) (omega arith) none_yet
