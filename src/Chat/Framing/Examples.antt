-- ===== src/Chat/Framing/Examples.antt =====
-- The framing theorems at concrete inputs, with a serializer that satisfies the laws.
use tryst_core_portfolio.Prelude.{
  ℕ, ◌≤◌, ◌<◌, ◌≡◌, refl, ◌⊎◌, true, false, List, [], ◌∷◌, some, length, take, arith, ok, err,
}
use tryst_core_portfolio.Chat.Framing.{
  Codec, CodecLaws, Writer, Reader, WriteError, panics, write_message, write_messages,
  read_messages, read_lp, ended, default_max_message_size,
}
use tryst_core_portfolio.Chat.Framing.Reading.{frame, read_lp_lem}
use tryst_core_portfolio.Chat.Framing.Stream.{write_messages-read_messages}
use tryst_core_portfolio.Chat.Framing.Limits.{write_message_lem, read_lp_truncated}

-- Messages that are byte strings, serialized as they are.
abbrev plain : Codec (List ℕ)
plain = record {
  serialized_size = λ m. some (length m);
  to_slice = λ m. some m;
  from_bytes = λ bs. some bs;
}

plain-sized :
    (m : List ℕ) (n : ℕ)
    → plain.serialized_size m ≡ some n
    → (bs : List ℕ) × (plain.to_slice m ≡ some bs) × (length bs ≡ n)
plain-sized m n h = (m, refl, ground arith)

plain-reads_back : (m bs : List ℕ) → plain.to_slice m ≡ some bs → plain.from_bytes bs ≡ some m
plain-reads_back m bs h = ground arith

plain_laws : CodecLaws plain
plain_laws = record { sized = plain-sized; reads_back = plain-reads_back }

abbrev two_messages : List (List ℕ)
two_messages = (7 ∷ 8 ∷ 9 ∷ []) ∷ [] ∷ []

abbrev out : Writer
out = record { written = 0 ∷ 0 ∷ 0 ∷ 3 ∷ 7 ∷ 8 ∷ 9 ∷ 0 ∷ 0 ∷ 0 ∷ 0 ∷ []; room = 89 }

write_messages-read_messages_example :
    read_messages plain
      (λ _. true)
      (λ _. 0)
      3
      []
      (record { incoming = out.written; breaks = false })
      []
    ≡ (ended, two_messages)
unfolding write_messages
write_messages-read_messages_example =
    write_messages-read_messages plain plain_laws (λ _. 0) two_messages 100 out refl

write_message_lem_example :
    ((default_max_message_size ≤ 3)
      × ((write_message plain default_max_message_size
            (7 ∷ 8 ∷ 9 ∷ [])
            (record { written = 1 ∷ []; room = 6 }))
          ≡ (err WriteError.too_large, record { written = 1 ∷ []; room = 6 })))
    ⊎ ((3 < default_max_message_size)
        × (7 ≤ 6)
        × ((bs : List ℕ) × (plain.to_slice (7 ∷ 8 ∷ 9 ∷ []) ≡ some bs)
            × ((write_message plain default_max_message_size
                  (7 ∷ 8 ∷ 9 ∷ [])
                  (record { written = 1 ∷ []; room = 6 }))
                ≡ (ok tt, record { written = 1 ∷ (0 ∷ 0 ∷ 0 ∷ 3 ∷ bs); room = 0 }))))
    ⊎ ((3 < default_max_message_size)
        × (6 < 7)
        × ((bs : List ℕ) × (plain.to_slice (7 ∷ 8 ∷ 9 ∷ []) ≡ some bs)
            × ((write_message plain default_max_message_size
                  (7 ∷ 8 ∷ 9 ∷ [])
                  (record { written = 1 ∷ []; room = 6 }))
                ≡ (
                  err WriteError.io,
                  record { written = 1 ∷ 0 ∷ 0 ∷ 0 ∷ 3 ∷ take 2 bs; room = 0 },
                ))))
write_message_lem_example =
    write_message_lem plain plain_laws (7 ∷ 8 ∷ 9 ∷ []) 3 (record { written = 1 ∷ []; room = 6 })
      refl

-- A stream that breaks within a frame of four bytes.
abbrev broken_frame : Reader
broken_frame = record { incoming = 0 ∷ 0 ∷ 0 ∷ 4 ∷ 5 ∷ 6 ∷ []; breaks = true }

read_lp_lem_example :
    ((read_lp (λ n. n) 10 [] broken_frame).0 ≡ (frame 10 broken_frame).0)
    × ((read_lp (λ n. n) 10 [] broken_frame).1 ≡ (frame 10 broken_frame).1)
    × ((read_lp (λ n. n) 10 [] broken_frame).2
        ≡ record { incoming = (frame 10 broken_frame).2; breaks = true })
read_lp_lem_example = read_lp_lem (λ n. n) 10 broken_frame

read_lp_truncated_example :
    (read_lp (λ n. n) 10 [] (record { incoming = 0 ∷ 0 ∷ 0 ∷ 4 ∷ 1 ∷ []; breaks = false })).0
    ≡ panics
read_lp_truncated_example =
    read_lp_truncated (λ n. n) 10 0 0 0 4 (1 ∷ []) (omega arith) (omega arith)
