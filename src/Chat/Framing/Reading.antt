-- ===== src/Chat/Framing/Reading.antt =====
-- What `read_lp` of src/protocols/chat/utils.rs returns on every stream.
use tryst_core_portfolio.Prelude.{
  ℕ, zero, suc, ◌-◌, ◌<◌, ◌≤◌, ◌≡◌, refl, min, Bool, List, [], ◌∷◌, ◌++◌, none, some, leb, ltb,
  if◌then◌else◌, length, take, drop, arith, inl, inr, append_assoc, append-nil, Bool-cases,
  Option-cases, length-take_le, ap, take-append-take, take-append-drop, drop-drop, length-drop,
}
use tryst_core_portfolio.Chat.Framing.{
  Reader, ReadError, ReadOutcome, finished, at_end, failed, panics, fill, filled, broken, read_lp,
  read_sized, read_u32,
}

-- The loop reads up to its limit, however the bytes come in pieces.
fill-enough :
    (chunk : ℕ → ℕ) (fuel limit : ℕ) (breaks : Bool) (incoming buffer : List ℕ)
    → limit < fuel
    → limit ≤ length incoming
    → fill chunk fuel limit breaks incoming buffer
      ≡ filled (buffer ++ take limit incoming) (drop limit incoming)
unfolding fill
fill-enough chunk zero limit breaks incoming buffer f h = elim f [ ]
fill-enough chunk (suc fuel) zero breaks incoming buffer f h = rw append-nil
fill-enough chunk (suc fuel) (suc l) breaks [] buffer f h = absurd (omega arith)
fill-enough chunk (suc fuel) (suc l) breaks (x ∷ xs) buffer f h =
    let n : ℕ = min (suc (chunk (suc l))) (min (suc l) (length (x ∷ xs))) in
    rw
      (fill-enough chunk fuel (suc l - n) breaks (drop n (x ∷ xs)) (buffer ++ take n (x ∷ xs))
        (omega arith) (omega (arith, length-drop n (x ∷ xs))))
      (rw
        (
          append_assoc,
          take-append-take n (suc l) (x ∷ xs) (omega arith),
          drop-drop n (suc l) (x ∷ xs) (omega arith),
        )
        (ground arith))

-- A stream that ends or breaks before the limit.
fill-short :
    (chunk : ℕ → ℕ) (fuel limit : ℕ) (breaks : Bool) (incoming buffer : List ℕ)
    → limit < fuel
    → length incoming < limit
    → fill chunk fuel limit breaks incoming buffer
      ≡ (if breaks then broken (buffer ++ incoming) else filled (buffer ++ incoming) [])
unfolding fill
fill-short chunk zero limit breaks incoming buffer f h = elim f [ ]
fill-short chunk (suc fuel) zero breaks incoming buffer f h = absurd (omega arith)
fill-short chunk (suc fuel) (suc l) breaks [] buffer f h = rw append-nil (ground arith)
fill-short chunk (suc fuel) (suc l) breaks (x ∷ xs) buffer f h =
    let n : ℕ = min (suc (chunk (suc l))) (min (suc l) (length (x ∷ xs))) in
    rw
      (fill-short chunk fuel (suc l - n) breaks (drop n (x ∷ xs)) (buffer ++ take n (x ∷ xs))
        (omega arith) (omega (arith, length-drop n (x ∷ xs))))
      (rw (append_assoc, take-append-drop n (x ∷ xs)) (ground arith))

-- What a read of a frame returns, the bytes that it leaves in the buffer and those that it leaves in
-- the stream, told without the pieces in which the bytes come: where the body is not all there, what
-- there is of it stays in the buffer.
frame_body : ℕ → Bool → ℕ × List ℕ → ReadOutcome (List ℕ) × List ℕ × List ℕ
frame_body max_message_size breaks (size, rest) =
    if ltb max_message_size size
    then (failed ReadError.too_large, [], rest)
    else if leb size (length rest)
    then (finished (take size rest), [], drop size rest)
    else (if breaks then failed ReadError.io else panics, rest, [])

unfoldable pub frame : ℕ → Reader → ReadOutcome (List ℕ) × List ℕ × List ℕ
unfolding frame_body
frame max_message_size r = elim (read_u32 r.incoming) [
  | none ↦ (if r.breaks then failed ReadError.io else at_end, [], [])
  | some p ↦ frame_body max_message_size r.breaks p
]

take-take_self : (n : ℕ) (xs : List ℕ) → take n (take n xs) ≡ take n xs
take-take_self zero xs = refl
take-take_self (suc n) [] = refl
take-take_self (suc n) (x ∷ xs) = ap (◌∷◌ x) (take-take_self n xs)

drop-take : (n : ℕ) (xs : List ℕ) → drop n (take n xs) ≡ []
drop-take zero xs = refl
drop-take (suc n) [] = refl
drop-take (suc n) (x ∷ xs) = drop-take n xs

abbrev Agrees :
    ReadOutcome (List ℕ) × List ℕ × Reader → ReadOutcome (List ℕ) × List ℕ × List ℕ → Bool → Type 0
Agrees got told breaks =
    (got.0 ≡ told.0) × (got.1 ≡ told.1) × (got.2 ≡ record { incoming = told.2; breaks = breaks })

read_sized_lem :
    (chunk : ℕ → ℕ) (max_message_size size : ℕ) (breaks : Bool) (rest : List ℕ)
    → Agrees
        (read_sized chunk max_message_size [] breaks (size, rest))
        (frame_body max_message_size breaks (size, rest))
        breaks
unfolding read_sized frame_body
read_sized_lem chunk max_message_size size breaks rest =
    elim (Bool-cases (leb size (length rest))) [
      | inl enough ↦ ground (
        arith,
        fill-enough chunk (suc size) size breaks rest [] (omega arith) (ground arith),
        length-take_le size rest,
        take-take_self size rest,
        drop-take size rest,
      )
      | inr short ↦
          ground
            (arith, fill-short chunk (suc size) size breaks rest [] (omega arith) (ground arith))
    ]

-- With an empty buffer `read_lp` returns what `frame` says, and leaves the buffer and the stream that
-- `frame` says, whatever the sizes of the pieces are.
pub read_lp_lem :
    (chunk : ℕ → ℕ) (max_message_size : ℕ) (r : Reader)
    → ((read_lp chunk max_message_size [] r).0 ≡ (frame max_message_size r).0)
      × ((read_lp chunk max_message_size [] r).1 ≡ (frame max_message_size r).1)
      × ((read_lp chunk max_message_size [] r).2
          ≡ record { incoming = (frame max_message_size r).2; breaks = r.breaks })
unfolding read_lp frame
read_lp_lem chunk max_message_size r = elim (Option-cases (read_u32 r.incoming)) [
  | inl e ↦ ground arith
  | inr (p, e) ↦ rw (e, read_lp, frame) (read_sized_lem chunk max_message_size p.0 r.breaks p.1)
]
