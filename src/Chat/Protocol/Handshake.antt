-- ===== src/Chat/Protocol/Handshake.antt =====
-- What `process_established_connection` of src/protocols/chat/protocol_handler.rs promises.
use tryst_core_portfolio.Prelude.{
  ℕ, ◌≡◌, refl, true, false, ◌≢◌, ap, ◌∙◌, Bool-cases, none, List, [], ◌∷◌, some, ok, err, arith,
  ◌⊎◌, inl, inr, ◌↔◌, Option-cases,
}
use tryst_core_portfolio.Chat.CloseReason.{
  ConnectionCloseReason, invalid_open_message, stream_read_failed, stream_write_failed,
}
use tryst_core_portfolio.Chat.Connection.{ConnOrigin, accept, dial, ChatConnectionHandle}
use tryst_core_portfolio.Chat.Protocol.{
  Transport, Fresh, EstablishError, no_stream, open_unread, open_invalid, open_unsent,
  process_established_connection, open_message, same_bytes, new_handle,
}

-- The twelve bytes that open a connection.
abbrev pub open_text : List ℕ
open_text = b'O' ∷ b'P' ∷ b'E' ∷ b'N' ∷ b'_' ∷ b'M' ∷ b'E' ∷ b'S' ∷ b'S' ∷ b'A' ∷ b'G' ∷ b'E' ∷ []

-- The close reasons that go with an error.
abbrev pub reasons : EstablishError → List ConnectionCloseReason
reasons no_stream = []
reasons open_unread = stream_read_failed ∷ []
reasons open_invalid = invalid_open_message ∷ []
reasons open_unsent = stream_write_failed ∷ []

same_bytes-eq : (xs ys : List ℕ) → same_bytes xs ys ≡ true → xs ≡ ys
same_bytes-eq [] [] h = refl
same_bytes-eq [] (y ∷ ys) h = cc
same_bytes-eq (x ∷ xs) [] h = cc
same_bytes-eq (x ∷ xs) (y ∷ ys) h = ground (arith, same_bytes-eq xs ys)

same_bytes_refl : (xs : List ℕ) → same_bytes xs xs ≡ true
same_bytes_refl [] = refl
same_bytes_refl (x ∷ xs) = ground (arith, same_bytes_refl xs)

differ : (bytes : List ℕ) → same_bytes bytes open_message ≡ false → bytes ≢ open_message
differ bytes h e = ground (arith, same_bytes_refl bytes, ap (λ b. same_bytes bytes b) e)

module _ {EndpointId : Type 0} where
  -- A handle that belongs to the transport connection, with the origin of its side.
  pub record Belongs (origin : ConnOrigin) (conn : Transport EndpointId) (fresh : Fresh)
      (h : ChatConnectionHandle EndpointId) : Type 0 where
    pub origin_is : h.origin ≡ origin
    pub remote_is : h.remote ≡ conn.remote
    pub connection_is : h.connection ≡ conn.connection
    pub id_is : h.id ≡ fresh.id
    pub tx_is : h.tx ≡ fresh.tx
    pub rx_is : h.rx ≡ fresh.rx
    pub token_is : h.cancel_token ≡ fresh.cancel_token

  -- The opening worked: the accepting side read the open message, the dialing side wrote it.
  abbrev pub Opened : ConnOrigin → Transport EndpointId → Type 0
  Opened accept conn = (conn.stream_opens ≡ true) × (conn.open_read ≡ some open_text)
  Opened dial conn = (conn.stream_opens ≡ true) × (conn.open_write ≡ true)

  -- What the transport did where the opening failed with this error.
  abbrev pub Failed : EstablishError → ConnOrigin → Transport EndpointId → Type 0
  Failed no_stream origin conn = conn.stream_opens ≡ false
  Failed open_unread accept conn = (conn.stream_opens ≡ true) × (conn.open_read ≡ none)
  Failed open_invalid accept conn =
      (conn.stream_opens ≡ true)
      × ((bytes : List ℕ) × (conn.open_read ≡ some bytes) × (bytes ≢ open_text))
  Failed open_unsent dial conn = (conn.stream_opens ≡ true) × (conn.open_write ≡ false)
  Failed _ _ conn = ⊥

  -- The handle of the connection is returned, and the connection was not closed, if the stream opens
  -- and the open message was read, on the accepting side, or written, on the dialing side. Otherwise
  -- there is an error: that no stream opened, and then the connection was not closed; that the message
  -- was not read, that other bytes were read, or that it was not written, and then the connection was
  -- closed with just the reason for that.
  pub process_established_connection_lem :
      (origin : ConnOrigin) (conn : Transport EndpointId) (fresh : Fresh)
      → ((h : ChatConnectionHandle EndpointId) × ((process_established_connection origin conn
              fresh).result
            ≡ ok h)
          × Belongs origin conn fresh h
          × Opened origin conn
          × ((process_established_connection origin conn fresh).closed ≡ []))
        ⊎ ((e : EstablishError) × ((process_established_connection origin conn fresh).result
              ≡ err e)
            × Failed e origin conn
            × ((process_established_connection origin conn fresh).closed ≡ reasons e))
  unfolding process_established_connection new_handle
  process_established_connection_lem accept conn fresh = elim (Bool-cases conn.stream_opens) [
    | inr shut ↦ inr (no_stream, ground arith, shut, ground arith)
    | inl opens ↦ elim (Option-cases conn.open_read) [
      | inl r ↦ inr (open_unread, ground arith, (opens, r), ground arith)
      | inr (bytes, r) ↦ elim (Bool-cases (same_bytes bytes open_message)) [
        | inl same ↦
            let q : bytes ≡ open_message = same_bytes-eq bytes open_message same in
            inl (
              new_handle accept conn fresh,
              ground arith,
              ground arith,
              (opens, r ∙ ap some q),
              ground arith,
            )
        | inr other ↦
            inr (open_invalid, ground arith, (opens, (bytes, r, differ bytes other)), ground arith)
      ]
    ]
  ]
  process_established_connection_lem dial conn fresh = elim (Bool-cases conn.stream_opens) [
    | inr shut ↦ inr (no_stream, ground arith, shut, ground arith)
    | inl opens ↦ elim (Bool-cases conn.open_write) [
      | inl w ↦
          inl (new_handle dial conn fresh, ground arith, ground arith, (opens, w), ground arith)
      | inr w ↦ inr (open_unsent, ground arith, (opens, w), ground arith)
    ]
  ]

  accepted_read :
      (here : Transport EndpointId) (fresh : Fresh) {k : ChatConnectionHandle EndpointId}
      → (process_established_connection accept here fresh).result ≡ ok k
      → (here.stream_opens ≡ true) × (here.open_read ≡ some open_message)
  unfolding process_established_connection
  accepted_read here fresh e = elim (Option-cases here.open_read) [
    | inl r ↦ absurd (ground arith)
    | inr (bs, r) ↦ ground (arith, same_bytes-eq bs open_message)
  ]

  dialed_sent :
      (there : Transport EndpointId) (fresh : Fresh) {h : ChatConnectionHandle EndpointId}
      → (process_established_connection dial there fresh).result ≡ ok h
      → (process_established_connection dial there fresh).sent ≡ open_message
  unfolding process_established_connection
  dialed_sent there fresh e = ground arith

  accepts_open_message :
      (here : Transport EndpointId) (fresh : Fresh)
      → here.stream_opens ≡ true
      → here.open_read ≡ some open_message
      → (k : ChatConnectionHandle EndpointId) × ((process_established_connection accept here
            fresh).result
          ≡ ok k)
  unfolding process_established_connection new_handle
  accepts_open_message here fresh o r = (new_handle accept here fresh, ground arith)

  -- Where a dialing peer gets a handle, the accepting peer gets one exactly when its stream opens and
  -- the bytes that it reads are the bytes that the dialing peer sent.
  pub dial-accept :
      (there here : Transport EndpointId) (fresh other : Fresh)
      (h : ChatConnectionHandle EndpointId)
      → (process_established_connection dial there fresh).result ≡ ok h
      → ((k : ChatConnectionHandle EndpointId) × ((process_established_connection accept here
              other).result
            ≡ ok k))
        ↔ ((here.stream_opens ≡ true)
            × (here.open_read ≡ some (process_established_connection dial there fresh).sent))
  dial-accept there here fresh other h e =
      let s = dialed_sent there fresh e in
      (
        λ (k, a). rw s (accepted_read here other a),
        λ (o, r). accepts_open_message here other o (rw s at r),
      )
