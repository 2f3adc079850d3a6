-- ===== src/Chat/Framing.antt =====
-- The length-prefixed frames of src/protocols/chat/utils.rs, and the two loops of
-- src/protocols/chat/protocol_handler.rs that write and read them.
--
-- Bytes are numbers below 256. The serializer (postcard) is a parameter: `Codec` has its three
-- functions and `CodecLaws` what the code relies on. A reader is the bytes that will arrive and
-- whether the stream then breaks or ends; how many bytes each read delivers is the argument
-- `chunk`. A writer is the bytes that it took and how many more it takes before it fails.
pub mod Reading
pub mod Stream
pub mod Limits
mod Examples
use tryst_core_portfolio.Prelude.{
  ℕ, zero, suc, ◌+◌, ◌-◌, ◌*◌, ◌/◌, ◌%◌, ◌^◌, ◌≡◌, min, Bool, true, false, List, [], ◌∷◌, ◌++◌,
  Option, none, some, leb, ltb, ◌==◌, if◌then◌else◌, length, take, drop, Result, ok, err, ◌>>=◌,
}

pub record Codec (M : Type 0) : Type 0 where
  pub serialized_size : M → Option ℕ
  pub to_slice : M → Option (List ℕ)
  pub from_bytes : List ℕ → Option M

-- A value has a size exactly when it serializes, its bytes have that size, and they read back.
pub record CodecLaws {M : Type 0} (codec : Codec M) : Type 0 where
  pub sized :
      (m : M) (n : ℕ)
      → codec.serialized_size m ≡ some n
      → (bs : List ℕ) × (codec.to_slice m ≡ some bs) × (length bs ≡ n)
  pub reads_back : (m : M) (bs : List ℕ) → codec.to_slice m ≡ some bs → codec.from_bytes bs ≡ some m

pub data WriteError : Type 0 where
  ser io too_large : WriteError

pub data ReadError : Type 0 where
  de io too_large : ReadError

pub record Writer : Type 0 where
  pub written : List ℕ
  pub room : ℕ

-- `write_all`: the writer takes the bytes that it has room for, and fails if that is not all.
unfoldable pub write_all : List ℕ → Writer → Result (Unit {0}) WriteError × Writer
write_all bs w =
    if leb (length bs) w.room
    then (ok tt, record { written = w.written ++ bs; room = w.room - length bs })
    else (err WriteError.io, record { written = w.written ++ take w.room bs; room = 0 })

-- A write goes on with the writer that the one before it leaves, unless that failed.
abbrev pub and_then :
    Result (Unit {0}) WriteError × Writer
    → (Writer → Result (Unit {0}) WriteError × Writer)
    → Result (Unit {0}) WriteError × Writer
and_then (ok _, w) next = next w
and_then (err e, w) next = (err e, w)

-- The four bytes of a `u32`, the high one first.
abbrev pub be_bytes : ℕ → List ℕ
be_bytes n = (n / 2 ^ 24 % 256) ∷ (n / 2 ^ 16 % 256) ∷ (n / 2 ^ 8 % 256) ∷ (n % 256) ∷ []

-- `DEFAULT_MAX_MESSAGE_SIZE`.
abbrev pub default_max_message_size : ℕ
default_max_message_size = 1024 * 1024

-- A stream of bytes that arrives: what is still to come, and whether it breaks after that or ends.
pub record Reader : Type 0 where
  pub incoming : List ℕ
  pub breaks : Bool

-- What a read returns: a value, no value at the end of the stream, an error, or the panic of
-- `split_to` when it is asked for more bytes than the buffer holds.
pub data ReadOutcome (A : Type 0) : Type 0 where
  finished : A → ReadOutcome A
  at_end : ReadOutcome A
  failed : ReadError → ReadOutcome A
  panics : ReadOutcome A

abbrev pub from_be : ℕ → ℕ → ℕ → ℕ → ℕ
from_be a b c d = ((a * 256 + b) * 256 + c) * 256 + d

-- `read_u32`: the number and the bytes behind it, or nothing if fewer than four bytes arrive.
abbrev pub read_u32 : List ℕ → Option (ℕ × List ℕ)
read_u32 (a ∷ b ∷ c ∷ d ∷ rest) = some (from_be a b c d, rest)
read_u32 _ = none

-- The end of the read loop: the buffer and what is left of the stream, the buffer where the stream
-- broke, or no fuel left.
pub data Fill : Type 0 where
  filled : List ℕ → List ℕ → Fill
  broken : List ℕ → Fill
  out_of_fuel : Fill

-- The loop of `read_lp` over `reader.take(limit)`: each `read_buf` delivers at least one byte and
-- at most what is left of the limit and of the stream.
unfoldable pub fill : (ℕ → ℕ) → ℕ → ℕ → Bool → List ℕ → List ℕ → Fill
fill chunk zero limit breaks incoming buffer = out_of_fuel
fill chunk (suc fuel) limit breaks incoming buffer =
    let n = min (suc (chunk limit)) (min limit (length incoming)) in
    let rest = fill chunk fuel (limit - n) breaks (drop n incoming) (buffer ++ take n incoming) in
    if limit == 0
    then filled buffer incoming
    else if length incoming == 0
    then if breaks then broken buffer else filled buffer incoming
    else rest

-- `buffer.split_to(size).freeze()`.
split_to : ℕ → Fill → Bool → ReadOutcome (List ℕ) × List ℕ × Reader
split_to size (filled buffer incoming) breaks =
    if leb size (length buffer)
    then (
      finished (take size buffer),
      drop size buffer,
      record { incoming = incoming; breaks = breaks },
    )
    else (panics, buffer, record { incoming = incoming; breaks = breaks })
split_to size (broken buffer) breaks =
    (failed ReadError.io, buffer, record { incoming = []; breaks = breaks })
split_to size out_of_fuel breaks = (at_end, [], record { incoming = []; breaks = breaks })

-- `read_lp` from its size check on. The fuel is one round more than the limit, since each round but
-- the last reads a byte.
read_sized : (ℕ → ℕ) → ℕ → List ℕ → Bool → ℕ × List ℕ → ReadOutcome (List ℕ) × List ℕ × Reader
unfolding fill split_to
read_sized chunk max_message_size buffer breaks (size, rest) =
    if ltb max_message_size size
    then (failed ReadError.too_large, buffer, record { incoming = rest; breaks = breaks })
    else split_to size (fill chunk (suc size) size breaks rest buffer) breaks

-- `read_lp`: the outcome, the buffer and the reader that it leaves.
unfoldable pub read_lp : (ℕ → ℕ) → ℕ → List ℕ → Reader → ReadOutcome (List ℕ) × List ℕ × Reader
unfolding read_sized
read_lp chunk max_message_size buffer r = elim (read_u32 r.incoming) [
  | none ↦ (
    if r.breaks then failed ReadError.io else at_end,
    buffer,
    record { incoming = []; breaks = r.breaks },
  )
  | some p ↦ read_sized chunk max_message_size buffer r.breaks p
]

-- How the reading task ends.
pub data LoopEnd : Type 0 where
  ended : LoopEnd
  read_failed : ReadError → LoopEnd
  receiver_dropped panicked no_fuel : LoopEnd

module _ {M : Type 0} (codec : Codec M) where
  -- `write_message`.
  unfoldable pub write_message : ℕ → M → Writer → Result (Unit {0}) WriteError × Writer
  unfolding write_all
  write_message max_message_size frame w = elim (codec.serialized_size frame) [
    | none ↦ (err WriteError.ser, w)
    | some len ↦
        if leb max_message_size len
        then (err WriteError.too_large, w)
        else elim (codec.to_slice frame) [
          | none ↦ (err WriteError.ser, w)
          | some slice ↦ and_then (write_all (be_bytes (len % 2 ^ 32)) w) (λ w'. write_all slice w')
        ]
  ]

  decode : ReadOutcome (List ℕ) → ReadOutcome M
  decode (finished bs) = elim (codec.from_bytes bs) [
    | none ↦ failed ReadError.de
    | some m ↦ finished m
  ]
  decode at_end = at_end
  decode (failed e) = failed e
  decode panics = panics

  -- `read_message`.
  unfoldable pub read_message : (ℕ → ℕ) → ℕ → List ℕ → Reader → ReadOutcome M × List ℕ × Reader
  unfolding read_lp decode
  read_message chunk max_message_size buffer r =
      let (got, buffer', r') = read_lp chunk max_message_size buffer r in (decode got, buffer', r')

  -- The task that writes what the `write_rx` channel delivers until it closes.
  unfoldable pub write_messages : List M → Writer → Result (Unit {0}) WriteError × Writer
  unfolding write_message
  write_messages [] w = (ok tt, w)
  write_messages (m ∷ ms) w =
      and_then (write_message default_max_message_size m w) (λ w'. write_messages ms w')

  -- The task that reads messages and hands them to the `read_tx` channel, from the messages that it
  -- has handed over already; `alive` says whether the channel takes one more.
  unfoldable pub read_messages :
      (List M → Bool) → (ℕ → ℕ) → ℕ → List ℕ → Reader → List M → LoopEnd × List M
  read_messages alive chunk zero buffer r handed = (no_fuel, handed)
  read_messages alive chunk (suc fuel) buffer r handed =
      let (got, buffer', r') = read_message chunk default_max_message_size buffer r in
      elim got [
        | finished m ↦
            let rest = read_messages alive chunk fuel buffer' r' (handed ++ m ∷ []) in
            if alive handed then rest else (receiver_dropped, handed)
        | at_end ↦ (ended, handed)
        | failed e ↦ (read_failed e, handed)
        | panics ↦ (panicked, handed)
      ]
