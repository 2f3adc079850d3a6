-- ===== src/Chat/Framing/Limits.antt =====
-- The size limits of src/protocols/chat/utils.rs, and the streams that end within a frame.
use tryst_core_portfolio.Prelude.{
  ℕ, zero, suc, ap, take, append_assoc, ◌+◌, ◌-◌, ◌%◌, ◌^◌, ◌<◌, ◌≤◌, ◌≡◌, refl, false, List, [],
  ◌∷◌, ◌++◌, none, some, leb, length, arith, ok, err, ◌⊎◌, inl, inr, Bool-cases, Option-cases,
  length-take_le,
}
use tryst_core_portfolio.Chat.Framing.{
  and_then, Codec, CodecLaws, Writer, Reader, WriteError, finished, at_end, panics, write_message,
  read_lp, be_bytes, from_be, default_max_message_size, write_all, read_u32,
}
use tryst_core_portfolio.Chat.Framing.Reading.{frame, read_lp_lem}

take-append_short :
    (n : ℕ) (xs ys : List ℕ) → length xs ≤ n → take n (xs ++ ys) ≡ xs ++ take (n - length xs) ys
take-append_short n [] ys h = ground arith
take-append_short zero (x ∷ xs) ys h = absurd (omega arith)
take-append_short (suc n) (x ∷ xs) ys h = ground (arith, take-append_short n xs ys (omega arith))

take-append_long : (n : ℕ) (xs ys : List ℕ) → n ≤ length xs → take n (xs ++ ys) ≡ take n xs
take-append_long zero xs ys h = refl
take-append_long (suc n) [] ys h = absurd (omega arith)
take-append_long (suc n) (x ∷ xs) ys h = ap (◌∷◌ x) (take-append_long n xs ys (omega arith))

module _ {M : Type 0} (codec : Codec M) (laws : CodecLaws codec) where
  write_both_ok :
      (hs bs : List ℕ) (w : Writer)
      → length hs + length bs ≤ w.room
      → and_then (write_all hs w) (λ v. write_all bs v) ≡ (
        ok tt,
        record { written = w.written ++ (hs ++ bs); room = w.room - (length hs + length bs) },
      )
  unfolding write_all
  write_both_ok hs bs w r = ground (arith, append_assoc w.written hs bs)

  write_both_full :
      (hs bs : List ℕ) (w : Writer)
      → w.room < length hs + length bs
      → and_then (write_all hs w) (λ v. write_all bs v)
        ≡ (err WriteError.io, record { written = w.written ++ take w.room (hs ++ bs); room = 0 })
  unfolding write_all
  write_both_full hs bs w r = elim (Bool-cases (leb (length hs) w.room)) [
    | inl fits ↦ ground (
      arith,
      take-append_short w.room hs bs (ground arith),
      append_assoc w.written hs (take (w.room - length hs) bs),
    )
    | inr full ↦ ground (arith, take-append_long w.room hs bs (ground arith))
  ]

  -- `write_message` on a message that serializes to `n` bytes. If `n` reaches the limit it is refused
  -- and the writer is left as it was. Below the limit, the length in four bytes and the bytes of the
  -- message are written behind what was written before, if there is room for them; if there is not,
  -- the write fails, and as many of these bytes as there is room for have been written.
  pub write_message_lem :
      (m : M) (n : ℕ) (w : Writer)
      → codec.serialized_size m ≡ some n
      → ((default_max_message_size ≤ n)
          × (write_message codec default_max_message_size m w ≡ (err WriteError.too_large, w)))
        ⊎ ((n < default_max_message_size)
            × (n + 4 ≤ w.room)
            × ((bs : List ℕ) × (codec.to_slice m ≡ some bs)
                × (write_message codec default_max_message_size m w ≡ (
                  ok tt,
                  record { written = w.written ++ (be_bytes n ++ bs); room = w.room - (n + 4) },
                ))))
        ⊎ ((n < default_max_message_size)
            × (w.room < n + 4)
            × ((bs : List ℕ) × (codec.to_slice m ≡ some bs)
                × (write_message codec default_max_message_size m w ≡ (
                  err WriteError.io,
                  record { written = w.written ++ take w.room (be_bytes n ++ bs); room = 0 },
                ))))
  unfolding write_message
  write_message_lem m n w e = elim (Bool-cases (leb default_max_message_size n)) [
    | inl big ↦ inl (ground arith, ground arith)
    | inr fits ↦
        let (bs, sl, len) = laws.sized m n e in
        let hs : List ℕ = be_bytes n in
        let small : n % 2 ^ 32 ≡ n = ground arith in
        elim (Bool-cases (leb (n + 4) w.room)) [
          | inl room ↦ inr (
              inl (
                ground arith,
                ground arith,
                (bs, sl, ground (arith, write_both_ok hs bs w (ground arith))),
              ))
          | inr full ↦ inr (
              inr (
                ground arith,
                ground arith,
                (bs, sl, ground (arith, write_both_full hs bs w (ground arith))),
              ))
        ]
  ]

-- A body that `read_lp` returns is never longer than the limit.
read_lp-bounded :
    (chunk : ℕ → ℕ) (max_message_size : ℕ) (r : Reader) (bs : List ℕ)
    → (read_lp chunk max_message_size [] r).0 ≡ finished bs
    → length bs ≤ max_message_size
unfolding frame
read_lp-bounded chunk max_message_size r bs h = elim (Option-cases (read_u32 r.incoming)) [
  | inl e ↦ absurd (ground (arith, read_lp_lem chunk max_message_size r))
  | inr ((size, rest), e) ↦
      ground (arith, read_lp_lem chunk max_message_size r, length-take_le size rest)
]

-- If the stream ends, without an error, after a length within the limit and fewer bytes than that
-- length says, `read_lp` panics: `split_to` is asked for more than was read.
pub read_lp_truncated :
    (chunk : ℕ → ℕ) (max_message_size : ℕ) (a b c d : ℕ) (rest : List ℕ)
    → from_be a b c d ≤ max_message_size
    → length rest < from_be a b c d
    → (read_lp chunk max_message_size []
        (record { incoming = a ∷ b ∷ c ∷ d ∷ rest; breaks = false })).0
      ≡ panics
unfolding frame
read_lp_truncated chunk max a b c d rest fits short =
    ground
      (arith, read_lp_lem chunk max (record { incoming = a ∷ b ∷ c ∷ d ∷ rest; breaks = false }))

short : (part : List ℕ) → length part < 4 → read_u32 part ≡ none
short [] h = refl
short (a ∷ []) h = refl
short (a ∷ b ∷ []) h = refl
short (a ∷ b ∷ c ∷ []) h = refl
short (a ∷ b ∷ c ∷ d ∷ rest) h = absurd (omega arith)

-- If the stream ends, without an error, within the four bytes of a length, `read_lp` reports the
-- end of the stream, as it does where no byte came at all.
read_lp_short_header :
    (chunk : ℕ → ℕ) (max_message_size : ℕ) (part : List ℕ)
    → length part < 4
    → (read_lp chunk max_message_size [] (record { incoming = part; breaks = false })).0 ≡ at_end
unfolding frame
read_lp_short_header chunk max part h =
    ground (arith, short part h, read_lp_lem chunk max (record { incoming = part; breaks = false }))
