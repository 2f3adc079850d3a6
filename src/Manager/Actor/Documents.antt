-- ===== src/Manager/Actor/Documents.antt =====
-- The handlers of src/manager.rs change the document only by the operations of the repository.
use tryst_core_portfolio.Prelude.{
  ℕ, Bool, true, false, Option, none, some, arith, inl, inr, Option-cases,
}
use tryst_core_portfolio.Chat.Message.{ProtoMessage, sync_message, sync}
use tryst_core_portfolio.Chat.Connection.{ChatConnectionState, EndpointOrder}
use tryst_core_portfolio.Manager.Repository.{Repository}
use tryst_core_portfolio.Manager.Actor.{
  Manager, InMessage, single, all, pass_accepted_conn_handle, handle_connection_state_change,
  handle_incomming_message, handle_outgoing_message, handle_subscription, receive_decoded, recover,
  send_generated, notify, Call,
}

-- What every operation of the repository keeps.
pub record Preserved (repo : Repository) (P : repo.Doc → Type 0) : Type 0 where
  pub by_generate : (d : repo.Doc) → P d → P (repo.generate_sync_message d).1
  pub by_receive :
      (msg : Option repo.SyncMsg) (d : repo.Doc) → P d → P (repo.receive_sync_message msg d).1
  pub by_add : (content : repo.Content) (d : repo.Doc) → P d → P (repo.add_message content d).1
  pub by_reset : (d : repo.Doc) → P d → P (repo.reset_doc_state_to_persisted d).1
  pub by_reset_sync : (d : repo.Doc) → P d → P (repo.reset_sync_state d)

module _ (EndpointId : Type 0) (repo : Repository) ⦃order : EndpointOrder EndpointId⦄
    (P : repo.Doc → Type 0) (kept : Preserved repo P) where
  abbrev pub Good : Manager EndpointId repo → Type 0
  Good m = P m.doc

  pub send_generated-Good :
      (is_open : ℕ → Bool) (m : Manager EndpointId repo)
      → Good m
      → Good (send_generated EndpointId repo is_open m)
  unfolding send_generated
  send_generated-Good is_open m h = kept.by_generate m.doc h

  recover-Good :
      (is_open : ℕ → Bool) (flag : Bool) (m : Manager EndpointId repo)
      → Good m
      → Good (recover EndpointId repo is_open flag m)
  unfolding recover
  recover-Good is_open true m h = h
  recover-Good is_open false m h =
      let doc' = (repo.reset_doc_state_to_persisted m.doc).1 in
      let p = kept.by_reset m.doc h in
      ground
        (arith, send_generated-Good is_open (record m { doc = doc'; reset_doc_state = true }) p)

  receive_decoded-Good :
      (is_open : ℕ → Bool) (msg : Option repo.SyncMsg) (m : Manager EndpointId repo)
      → Good m
      → Good (receive_decoded EndpointId repo is_open msg m)
  unfolding receive_decoded
  receive_decoded-Good is_open msg m h =
      let doc' = (repo.receive_sync_message msg m.doc).1 in
      let p = kept.by_receive msg m.doc h in
      ground (arith, recover-Good is_open m.reset_doc_state (record m { doc = doc' }) p)

  pub change-Good :
      (is_open : ℕ → Bool) (s : ChatConnectionState) (m : Manager EndpointId repo)
      → Good m
      → Good (handle_connection_state_change EndpointId repo is_open s m)
  unfolding handle_connection_state_change
  change-Good is_open s m h =
      ground (arith, kept.by_reset_sync m.doc h, kept.by_generate (repo.reset_sync_state m.doc))

  pub incoming-Good :
      (is_open : ℕ → Bool) (msg : ProtoMessage) (m : Manager EndpointId repo)
      → Good m
      → Good (handle_incomming_message EndpointId repo is_open msg m)
  unfolding handle_incomming_message
  incoming-Good is_open (sync none) m h = receive_decoded-Good is_open none m h
  incoming-Good is_open (sync (some (sync_message bytes))) m h =
      elim (Option-cases (repo.decode bytes)) [
        | inl e ↦ ground arith
        | inr (msg, e) ↦ ground (arith, receive_decoded-Good is_open (some msg) m h)
      ]

  pub outgoing-Good :
      (is_open : ℕ → Bool) (msg : Option (InMessage EndpointId repo)) (m : Manager EndpointId repo)
      → Good m
      → Good (handle_outgoing_message EndpointId repo is_open msg m).0
  unfolding handle_outgoing_message
  outgoing-Good is_open none m h = h
  outgoing-Good is_open (some (single content tx heard)) m h =
      ground (arith, kept.by_add content m.doc h)
  outgoing-Good is_open (some (all tx heard)) m h = ground arith
  outgoing-Good is_open (some (pass_accepted_conn_handle c new_id)) m h = h

  pub notify-Good :
      (call : ℕ → Call repo.Message) (m : Manager EndpointId repo)
      → Good m
      → Good (notify EndpointId repo call m)
  unfolding notify
  notify-Good call m h = ground arith

  pub subscription-Good :
      (msg : Option (ℕ × ℕ)) (m : Manager EndpointId repo)
      → Good m
      → Good (handle_subscription EndpointId repo msg m).0
  unfolding handle_subscription
  subscription-Good none m h = h
  subscription-Good (some _) m h = h
