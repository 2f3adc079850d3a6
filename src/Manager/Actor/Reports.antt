-- ===== src/Manager/Actor/Reports.antt =====
-- What the handlers of src/manager.rs send while the channel of their connection is open, and how
-- that goes with the sync status of the document.
use tryst_core_portfolio.Prelude.{
  ℕ, Bool, true, false, List, ◌∷◌, ◌≡◌, ◌∙◌, refl, ap, ◌⊎◌, inl, inr, Option, none, some, arith, ok,
  err, Result-cases,
}
use mathlib.Core.Option
use tryst_core_portfolio.Failure.{LibError}
use tryst_core_portfolio.Chat.Message.{sync_message, sync}
use tryst_core_portfolio.Chat.Connection.{
  ChatConnectionHandle, ChatConnectionState, InternalConnState, EndpointOrder,
}
use tryst_core_portfolio.Chat.Connection.Tasks.{send_message}
use tryst_core_portfolio.Manager.Repository.{Repository}
use tryst_core_portfolio.Manager.Actor.{
  Manager, InMessage, single, all, pass_accepted_conn_handle, handle_connection_state_change,
  handle_outgoing_message, handle_subscription, send_generated, notify, Call,
  process_connection_state, to_uniffi,
}
use tryst_core_portfolio.Manager.Actor.Sync.{replied}

abbrev pub is_none : {A : Type 0} → Option A → Bool
is_none none = true
is_none (some _) = false

-- The sync status says whether the document had nothing to send when it was last asked; a document
-- that takes a sync message answers nothing only to an empty one, and with nothing to send.
pub record Reports (repo : Repository) : Type 0 where
  pub by_generate :
      (d : repo.Doc)
      → repo.sync_status (repo.generate_sync_message d).1 ≡ is_none (repo.generate_sync_message d).0
  pub by_receive :
      (msg : Option repo.SyncMsg) (d d' : repo.Doc) (chunks : List repo.Message)
      (action : Option (Option repo.SyncMsg))
      → repo.receive_sync_message msg d ≡ (ok (chunks, action), d')
      → ((action ≡ none) × (msg ≡ none) × (repo.sync_status d' ≡ true))
        ⊎ ((out : Option repo.SyncMsg) × (action ≡ some out) × (repo.sync_status d' ≡ is_none out))
  pub by_add :
      (content : repo.Content) (d d' : repo.Doc) (msg : repo.Message) (out : Option repo.SyncMsg)
      → repo.add_message content d ≡ (ok (msg, out), d')
      → repo.sync_status d' ≡ is_none out
  pub by_refusal :
      (content : repo.Content) (d d' : repo.Doc) (e : LibError)
      → repo.add_message content d ≡ (err e, d')
      → repo.sync_status d' ≡ repo.sync_status d

module _ (EndpointId : Type 0) (repo : Repository) (is_open : ℕ → Bool) where
  -- The manager holds a connection whose channel is open.
  pub record Linked (m : Manager EndpointId repo) : Type 0 where
    pub handle : ChatConnectionHandle EndpointId
    pub holds : m.session.conn.state ≡ InternalConnState.connected handle
    pub opened : is_open handle.tx ≡ true
    pub shown : m.session.conn.published ≡ ChatConnectionState.connected handle.id

  -- Between two states of the manager nothing was sent, and the sync status is the same.
  abbrev pub Silent : Manager EndpointId repo → Manager EndpointId repo → Type 0
  Silent m m' =
      (m'.session.sent ≡ m.session.sent) × (repo.sync_status m'.doc ≡ repo.sync_status m.doc)

  -- Between two states of the manager one sync message was sent, and the sync status says whether it
  -- is the empty one.
  abbrev pub Tells : Manager EndpointId repo → Manager EndpointId repo → Type 0
  Tells m m' =
      (out : Option repo.SyncMsg) × (tx : ℕ) × (m'.session.sent
        ≡ (tx, sync (Option.map (λ s. sync_message (repo.encode s)) out)) ∷ m.session.sent)
      × (repo.sync_status m'.doc ≡ is_none out)

  notify-session :
      (call : ℕ → Call repo.Message) (m : Manager EndpointId repo)
      → ((notify EndpointId repo call m).session ≡ m.session)
        × ((notify EndpointId repo call m).doc ≡ m.doc)
  unfolding notify
  notify-session call m = ground arith

  pub notify-Silent :
      (call : ℕ → Call repo.Message) (m : Manager EndpointId repo)
      → Silent m (notify EndpointId repo call m)
  notify-Silent call m =
      let (s, d) = notify-session call m in (ap (λ s. s.sent) s, ap repo.sync_status d)

  pub sent-replied :
      (out : Option repo.SyncMsg) (m : Manager EndpointId repo)
      → Linked m
      → (tx : ℕ) × (replied EndpointId repo is_open (some out) m.session ≡ record m.session {
        sent = (tx, sync (Option.map (λ s. sync_message (repo.encode s)) out)) ∷ m.session.sent;
      })
  unfolding send_message
  sent-replied out m l = (l.handle.tx, ground (arith, l.holds, l.opened))

  module _ (law : Reports repo) where
    pub send_generated-Tells :
        (m : Manager EndpointId repo)
        → Linked m
        → Tells m (send_generated EndpointId repo is_open m)
    unfolding send_generated
    send_generated-Tells m l =
        let out = (repo.generate_sync_message m.doc).0 in
        let (tx, e) = sent-replied out m l in (out, tx, ap (λ s. s.sent) e, law.by_generate m.doc)

    -- The manager after it told its subscriber of a connection, with a new sync state.
    abbrev told_connected : ℕ → Manager EndpointId repo → Manager EndpointId repo
    told_connected id m =
        let told =
          notify EndpointId repo
            (λ r. process_connection_state r (to_uniffi (ChatConnectionState.connected id))) m in
        record told { doc = repo.reset_sync_state told.doc }

    told-session :
        (id : ℕ) (m : Manager EndpointId repo) → (told_connected id m).session ≡ m.session
    told-session id m = (notify-session _ m).0

    told-Linked : (id : ℕ) (m : Manager EndpointId repo) → Linked m → Linked (told_connected id m)
    told-Linked id m l = record {
      handle = l.handle;
      holds = ap (λ s. s.conn.state) (told-session id m) ∙ l.holds;
      opened = l.opened;
      shown = ap (λ s. s.conn.published) (told-session id m) ∙ l.shown;
    }

    pub change-Tells :
        (id : ℕ) (m : Manager EndpointId repo)
        → Linked m
        → Tells m (
            handle_connection_state_change EndpointId repo is_open
              (ChatConnectionState.connected id)
              m)
    unfolding handle_connection_state_change
    change-Tells id m l =
        let (out, tx, e, status) =
          send_generated-Tells (told_connected id m) (told-Linked id m l) in
        (
          out,
          tx,
          e
              ∙ ap (λ s. (tx, sync (Option.map (λ x. sync_message (repo.encode x)) out)) ∷ s.sent)
                  (told-session id m),
          status,
        )

    pub change-conn :
        (id : ℕ) (m : Manager EndpointId repo)
        → Linked m
        → (handle_connection_state_change EndpointId repo is_open
            (ChatConnectionState.connected id)
            m).session.conn
          ≡ m.session.conn
    unfolding handle_connection_state_change send_generated
    change-conn id m l =
        let q = sent-replied _ (told_connected id m) (told-Linked id m l) in
        ap (λ s. s.conn) q.1 ∙ ap (λ s. s.conn) (told-session id m)

  pub subscription-Silent :
      (msg : Option (ℕ × ℕ)) (m : Manager EndpointId repo)
      → Silent m (handle_subscription EndpointId repo msg m).0
  unfolding handle_subscription
  subscription-Silent none m = (refl, refl)
  subscription-Silent (some (r, tx)) m = (refl, refl)

  module _ ⦃order : EndpointOrder EndpointId⦄ (law : Reports repo) where
    single-Reports :
        (content : repo.Content) (tx : ℕ) (heard : Bool) (m : Manager EndpointId repo)
        → Linked m
        → Silent m
            (handle_outgoing_message EndpointId repo is_open (some (single content tx heard)) m).0
          ⊎ Tells m
              (handle_outgoing_message EndpointId repo is_open (some (single content tx heard)) m).0
    unfolding handle_outgoing_message
    single-Reports content tx heard m l =
        let added = repo.add_message content m.doc in
        elim (Result-cases added.0) [
          | inl ((msg, out), e) ↦
              let (to, sent) = sent-replied out m l in
              let status = law.by_add content m.doc added.1 msg out (ap (λ r. (r, added.1)) e) in
              inr (out, to, ground (arith, sent, status), ground (arith, status))
          | inr (e, refused) ↦
              let status =
                law.by_refusal content m.doc added.1 e (ap (λ r. (r, added.1)) refused) in
              inl (ground (arith, status))
        ]

    pub outgoing-Reports :
        (msg : Option (InMessage EndpointId repo)) (m : Manager EndpointId repo)
        → Linked m
        → Silent m (handle_outgoing_message EndpointId repo is_open msg m).0
          ⊎ Tells m (handle_outgoing_message EndpointId repo is_open msg m).0
    unfolding handle_outgoing_message
    outgoing-Reports none m l = inl (refl, refl)
    outgoing-Reports (some (single content tx heard)) m l = single-Reports content tx heard m l
    outgoing-Reports (some (all tx true)) m l = inl (refl, refl)
    outgoing-Reports (some (all tx false)) m l = inl (refl, refl)
    outgoing-Reports (some (pass_accepted_conn_handle h new_id)) m l = inl (refl, refl)
