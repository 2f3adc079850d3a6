-- ===== src/Manager/Loop/Reports.antt =====
-- What a turn of the loop of src/manager.rs sends while the channel of its connection is open, and
-- how that goes with the sync status of the document.
use tryst_core_portfolio.Prelude.{
  ℕ, Bool, true, false, List, ◌≡◌, ◌∙◌, refl, ap, subst, sym, ◌⊎◌, inl, inr, Option, none, some,
  arith, ok,
}
use tryst_core_portfolio.Chat.Message.{SyncMessage, ProtoMessage, sync}
use tryst_core_portfolio.Chat.Connection.{ChatConnectionState, EndpointOrder}
use tryst_core_portfolio.Chat.Connection.Tasks.{receive}
use tryst_core_portfolio.Chat.Connection.Tasks.Recovery.{sent-step}
use tryst_core_portfolio.Manager.Repository.{Repository}
use tryst_core_portfolio.Manager.Actor.{
  Manager, process_sync_status, handle_incomming_message, handle_connection_state_change,
}
use tryst_core_portfolio.Manager.Actor.Sync.{decoded, replied, good_sync}
use tryst_core_portfolio.Manager.Actor.Reports.{
  Reports, Linked, Silent, Tells, sent-replied, send_generated-Tells, change-Tells, change-conn,
  notify-Silent, subscription-Silent, outgoing-Reports,
}
use tryst_core_portfolio.Manager.Loop.{
  Branch, cancelled, ticks, sync_status_changes, conn_state_changes, subscribes, outgoing, incoming,
  background, turn, close_conn, take_incoming, tick,
}

-- A branch that waits for something else than a message of the peer.
abbrev pub is_local : {EndpointId : Type 0} {repo : Repository} → Branch EndpointId repo → Bool
is_local (incoming _) = false
is_local _ = true

module _ (EndpointId : Type 0) (repo : Repository) ⦃order : EndpointOrder EndpointId⦄
    (is_open : ℕ → Bool) (law : Reports repo) where
  tick-Tells :
      (m : Manager EndpointId repo)
      → (l : Linked EndpointId repo is_open m)
      → Tells EndpointId repo is_open m
          (tick EndpointId repo is_open (ChatConnectionState.connected l.handle.id) m)
  unfolding tick
  tick-Tells m l = send_generated-Tells EndpointId repo is_open law m l

  -- The turn on a change of the connection's state.
  pub changes-Tells :
      (m : Manager EndpointId repo)
      → Linked EndpointId repo is_open m
      → Tells EndpointId repo is_open m (turn EndpointId repo is_open conn_state_changes m).0
  unfolding turn
  changes-Tells m l =
      subst
        (λ p.
          Tells EndpointId repo is_open m
            (handle_connection_state_change EndpointId repo is_open p m))
        (sym l.shown) (change-Tells EndpointId repo is_open law l.handle.id m l)

  pub changes-conn :
      (m : Manager EndpointId repo)
      → Linked EndpointId repo is_open m
      → (turn EndpointId repo is_open conn_state_changes m).0.session.conn ≡ m.session.conn
  unfolding turn
  changes-conn m l =
      ap (λ p. (handle_connection_state_change EndpointId repo is_open p m).session.conn) l.shown
      ∙ change-conn EndpointId repo is_open law l.handle.id m l

  pub turn-Reports :
      (b : Branch EndpointId repo) (m : Manager EndpointId repo)
      → is_local b ≡ true
      → Linked EndpointId repo is_open m
      → Silent EndpointId repo is_open m (turn EndpointId repo is_open b m).0
        ⊎ Tells EndpointId repo is_open m (turn EndpointId repo is_open b m).0
  unfolding turn close_conn
  turn-Reports cancelled m i l = inl (refl, refl)
  turn-Reports ticks m i l = inr (
      subst (λ p. Tells EndpointId repo is_open m (tick EndpointId repo is_open p m)) (sym l.shown)
        (tick-Tells m l))
  turn-Reports sync_status_changes m i l = inl (
      notify-Silent EndpointId repo is_open (λ r. process_sync_status r (repo.sync_status m.doc)) m)
  turn-Reports conn_state_changes m i l = inr (changes-Tells m l)
  turn-Reports (subscribes msg) m i l = inl (subscription-Silent EndpointId repo is_open msg m)
  turn-Reports (outgoing msg) m i l = outgoing-Reports EndpointId repo is_open law msg m l
  turn-Reports (incoming recv) m i l = absurd (ground arith)
  turn-Reports (background e) m i l = inl (sent-step e m.session, refl)

  -- A turn that takes a message of the peer is the handler of such messages.
  pub turn-incoming :
      (msg : ProtoMessage) (m : Manager EndpointId repo)
      → Linked EndpointId repo is_open m
      → (turn EndpointId repo is_open (incoming (λ _. some msg)) m).0
        ≡ handle_incomming_message EndpointId repo is_open msg m
  unfolding turn take_incoming receive
  turn-incoming msg m l = ground (arith, l.holds, l.shown)

  -- What a turn sends that takes a message which the document takes, and the sync status after it.
  pub takes-Reports :
      (bytes : Option SyncMessage) (msg : Option repo.SyncMsg) (m : Manager EndpointId repo)
      (chunks : List repo.Message) (action : Option (Option repo.SyncMsg)) (d' : repo.Doc)
      → Linked EndpointId repo is_open m
      → decoded EndpointId repo bytes ≡ some msg
      → repo.receive_sync_message msg m.doc ≡ (ok (chunks, action), d')
      → ((msg ≡ none)
          × ((turn EndpointId repo is_open (incoming (λ _. some (sync bytes))) m).0.session
              ≡ m.session)
          × (repo.sync_status
                (turn EndpointId repo is_open (incoming (λ _. some (sync bytes))) m).0.doc
              ≡ true))
        ⊎ Tells EndpointId repo is_open m
            (turn EndpointId repo is_open (incoming (λ _. some (sync bytes))) m).0
  takes-Reports bytes msg m chunks action d' l d r =
      let m' = (turn EndpointId repo is_open (incoming (λ _. some (sync bytes))) m).0 in
      let e =
        turn-incoming (sync bytes) m l
        ∙ good_sync EndpointId repo is_open bytes msg m chunks action d' d r in
      elim (law.by_receive msg m.doc d' chunks action r) [
        | inl (silent, empty, s) ↦ inl (
          empty,
          ap (λ n. n.session) e ∙ ap (λ a. replied EndpointId repo is_open a m.session) silent,
          ap (λ n. repo.sync_status n.doc) e ∙ s,
        )
        | inr (out, told, s) ↦
            let (tx, q) = sent-replied EndpointId repo is_open out m l in
            inr (
              out,
              tx,
              ap (λ n. n.session.sent) e
                  ∙ ap (λ a. (replied EndpointId repo is_open a m.session).sent) told
                  ∙ ap (λ t. t.sent) q,
              ap (λ n. repo.sync_status n.doc) e ∙ s,
            )
      ]

  replied-conn :
      (action : Option (Option repo.SyncMsg)) (m : Manager EndpointId repo)
      → Linked EndpointId repo is_open m
      → (replied EndpointId repo is_open action m.session).conn ≡ m.session.conn
  replied-conn none m l = refl
  replied-conn (some out) m l = ap (λ s. s.conn) (sent-replied EndpointId repo is_open out m l).1

  -- Such a turn keeps the connection.
  pub takes-conn :
      (bytes : Option SyncMessage) (msg : Option repo.SyncMsg) (m : Manager EndpointId repo)
      (chunks : List repo.Message) (action : Option (Option repo.SyncMsg)) (d' : repo.Doc)
      → Linked EndpointId repo is_open m
      → decoded EndpointId repo bytes ≡ some msg
      → repo.receive_sync_message msg m.doc ≡ (ok (chunks, action), d')
      → (turn EndpointId repo is_open (incoming (λ _. some (sync bytes))) m).0.session.conn
        ≡ m.session.conn
  takes-conn bytes msg m chunks action d' l d r =
      ap (λ n. n.session.conn)
        (turn-incoming (sync bytes) m l
          ∙ good_sync EndpointId repo is_open bytes msg m chunks action d' d r)
      ∙ replied-conn action m l
