-- ===== src/Chat/Framing/Stream.antt =====
-- What one peer writes is what the other reads (src/protocols/chat/utils.rs and the two tasks of
-- `process_established_connection`).
use tryst_core_portfolio.Prelude.{
  ℕ, suc, ◌/◌, ◌%◌, ◌^◌, ◌<◌, ◌≤◌, ◌≡◌, refl, ap, ◌∙◌, Bool, true, false, List, [], ◌∷◌, ◌++◌, some,
  length, take, drop, arith, append_assoc, append-nil, length-append, ok, inl, inr, Option-cases,
  Result-cases,
}
use tryst_core_portfolio.Chat.Framing.{
  Codec, CodecLaws, Writer, Reader, finished, at_end, write_message, write_messages, read_message,
  read_messages, read_lp, and_then, be_bytes, from_be, default_max_message_size, ended, write_all,
}
use tryst_core_portfolio.Chat.Framing.Reading.{frame, read_lp_lem}

from_be-be_bytes :
    (n : ℕ)
    → n < 2 ^ 32
    → from_be (n / 2 ^ 24 % 256) (n / 2 ^ 16 % 256) (n / 2 ^ 8 % 256) (n % 256) ≡ n
from_be-be_bytes n h = omega arith

take-append : (xs ys : List ℕ) → take (length xs) (xs ++ ys) ≡ xs
take-append [] ys = refl
take-append (x ∷ xs) ys = ap (◌∷◌ x) (take-append xs ys)

drop-append : (xs ys : List ℕ) → drop (length xs) (xs ++ ys) ≡ ys
drop-append [] ys = refl
drop-append (x ∷ xs) ys = drop-append xs ys

-- A frame with its body in front of the stream.
frame_of_bytes :
    (max : ℕ) (bs rest : List ℕ) (breaks : Bool)
    → length bs ≤ max
    → max < 2 ^ 32
    → frame max (record { incoming = be_bytes (length bs) ++ bs ++ rest; breaks = breaks })
      ≡ (finished bs, [], rest)
unfolding frame
frame_of_bytes max bs rest breaks h m = ground (
  arith,
  from_be-be_bytes (length bs) (omega arith),
  take-append bs rest,
  drop-append bs rest,
  length-append bs rest,
)

module _ {M : Type 0} (codec : Codec M) (laws : CodecLaws codec) where
  -- A stream that holds the frames of the messages one after the other.
  abbrev Framed : List M → List ℕ → Type 0
  Framed [] s = s ≡ []
  Framed (m ∷ ms) s =
      (bs : List ℕ) × (rest : List ℕ) × (s ≡ be_bytes (length bs) ++ bs ++ rest)
      × (length bs < default_max_message_size)
      × (codec.to_slice m ≡ some bs)
      × Framed ms rest

  write_both :
      (hs bs : List ℕ) (w w' : Writer)
      → and_then (write_all hs w) (λ v. write_all bs v) ≡ (ok tt, w')
      → w'.written ≡ w.written ++ (hs ++ bs)
  unfolding write_all
  write_both hs bs w w' h = ground (arith, append_assoc w.written hs bs)

  abbrev Writes : M → Writer → Writer → Type 0
  Writes m w w' =
      (bs : List ℕ) × (w'.written ≡ w.written ++ (be_bytes (length bs) ++ bs))
      × (length bs < default_max_message_size)
      × (codec.to_slice m ≡ some bs)

  write_message-Writes :
      (m : M) (w w' : Writer)
      → write_message codec default_max_message_size m w ≡ (ok tt, w')
      → Writes m w w'
  unfolding write_message
  write_message-Writes m w w' h = elim (Option-cases (codec.serialized_size m)) [
    | inl e ↦ absurd (ground arith)
    | inr (n, e) ↦
        let (bs, sl, len) = laws.sized m n e in
        (bs, ground (arith, write_both (be_bytes (n % 2 ^ 32)) bs w w'), ground arith, sl)
  ]

  write_messages-Framed :
      (ms : List M) (w w' : Writer)
      → write_messages codec ms w ≡ (ok tt, w')
      → (s : List ℕ) × (w'.written ≡ w.written ++ s) × Framed ms s
  unfolding write_messages
  write_messages-Framed [] w w' h = ([], ground (arith, append-nil w.written), refl)
  write_messages-Framed (m ∷ ms) w w' h =
      elim (Result-cases (write_message codec default_max_message_size m w).0) [
        | inr (x, e) ↦ absurd (ground arith)
        | inl (tt, e) ↦
            let v : Writer = (write_message codec default_max_message_size m w).1 in
            let (bs, wrote, fits, sl) = write_message-Writes m w v (ground arith) in
            let (s, more, framed) = write_messages-Framed ms v w' (ground arith) in
            (
              be_bytes (length bs) ++ bs ++ s,
              more ∙ ap (λ t. t ++ s) wrote ∙ append_assoc w.written (be_bytes (length bs) ++ bs) s,
              (bs, s, refl, fits, sl, framed),
            )
      ]

  read_one :
      (chunk : ℕ → ℕ) (m : M) (bs rest : List ℕ) (breaks : Bool)
      → length bs < default_max_message_size
      → codec.to_slice m ≡ some bs
      → read_message codec chunk default_max_message_size []
          (record { incoming = be_bytes (length bs) ++ bs ++ rest; breaks = breaks })
        ≡ (finished m, [], record { incoming = rest; breaks = breaks })
  unfolding read_message
  read_one chunk m bs rest breaks fits sl =
      let r : Reader = record { incoming = be_bytes (length bs) ++ bs ++ rest; breaks = breaks } in
      ground (
        arith,
        read_lp_lem chunk default_max_message_size r,
        frame_of_bytes default_max_message_size bs rest breaks (omega arith) (omega arith),
        laws.reads_back m bs sl,
      )

  read_none :
      (chunk : ℕ → ℕ)
      → read_message codec chunk default_max_message_size []
          (record { incoming = []; breaks = false })
        ≡ (at_end, [], record { incoming = []; breaks = false })
  unfolding read_message read_lp
  read_none chunk = refl

  read_messages_of_Framed :
      (chunk : ℕ → ℕ) (ms handed : List M) (s : List ℕ)
      → Framed ms s
      → read_messages codec
          (λ _. true)
          chunk
          (suc (length ms))
          []
          (record { incoming = s; breaks = false })
          handed
        ≡ (ended, handed ++ ms)
  unfolding read_messages
  read_messages_of_Framed chunk [] handed s f =
      rw f (ground (arith, read_none chunk, append-nil handed))
  read_messages_of_Framed chunk (m ∷ ms) handed s (bs, rest, e, fits, sl, framed) = rw e (
      ground (
        arith,
        read_one chunk m bs rest false fits sl,
        read_messages_of_Framed chunk ms (handed ++ m ∷ []) rest framed,
        append_assoc handed (m ∷ []) ms,
      ))

  -- If the writing task gets all messages out on the stream, the reading task at the other end of
  -- it, however the bytes come in pieces, hands over exactly these messages in this order and then
  -- ends without an error, after as many rounds as there are messages and one more.
  pub write_messages-read_messages :
      (chunk : ℕ → ℕ) (ms : List M) (room : ℕ) (w : Writer)
      → write_messages codec ms (record { written = []; room = room }) ≡ (ok tt, w)
      → read_messages codec
          (λ _. true)
          chunk
          (suc (length ms))
          []
          (record { incoming = w.written; breaks = false })
          []
        ≡ (ended, ms)
  write_messages-read_messages chunk ms room w h =
      let (s, e, framed) = write_messages-Framed ms (record { written = []; room = room }) w h in
      rw e (read_messages_of_Framed chunk ms [] s framed)
