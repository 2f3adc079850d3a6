-- ===== src/Manager/Actor/Sync.antt =====
-- How the actor of src/manager.rs handles sync messages, good and bad.
use tryst_core_portfolio.Prelude.{
  ℕ, suc, ◌+◌, ◌*◌, Result-cases, ◌≤◌, Bool, true, false, List, [], ◌∷◌, ◌≡◌, ◌∙◌, refl, ◌⊎◌, inl,
  inr, arith, Option, none, some, ok, err, length, Option-cases,
}
use mathlib.Core.Option
use tryst_core_portfolio.Failure.{LibError}
use tryst_core_portfolio.Chat.Message.{SyncMessage, sync_message, ProtoMessage, sync}
use tryst_core_portfolio.Chat.Connection.Tasks.{Session, send_message}
use tryst_core_portfolio.Chat.Connection.Tasks.Recovery.{sent-send_message-le}
use tryst_core_portfolio.Manager.Repository.{Repository}
use tryst_core_portfolio.Manager.Actor.{
  Manager, handle_incomming_message, receive_decoded, process_messages, recover, Call,
  send_generated,
}

module _ (EndpointId : Type 0) (repo : Repository) where
  -- The document does not take the message: its bytes do not decode, or it fails on what they mean.
  abbrev pub Refuses : repo.Doc → ProtoMessage → Type 0
  Refuses doc (sync none) = ⊥
  Refuses doc (sync (some (sync_message bytes))) =
      (msg : repo.SyncMsg)
      → repo.decode bytes ≡ some msg
      → (e : LibError) × ((repo.receive_sync_message (some msg) doc).0 ≡ err e)

  abbrev pub empty_messages : List ProtoMessage → ℕ
  empty_messages [] = 0
  empty_messages (sync none ∷ msgs) = suc (empty_messages msgs)
  empty_messages (sync (some _) ∷ msgs) = empty_messages msgs

  -- How many more sync messages the actor may send before the next success.
  abbrev allowance : Bool → ℕ
  allowance true = 0
  allowance false = 1

  send_generated_lem :
      (is_open : ℕ → Bool) (m : Manager EndpointId repo)
      → (length (send_generated EndpointId repo is_open m).session.sent
          ≤ suc (length m.session.sent))
        × ((send_generated EndpointId repo is_open m).reset_doc_state ≡ m.reset_doc_state)
  unfolding send_generated
  send_generated_lem is_open m = (sent-send_message-le is_open _ m.session, refl)

  recover-allowance :
      (is_open : ℕ → Bool) (flag : Bool) (m : Manager EndpointId repo)
      → m.reset_doc_state ≡ flag
      → length (recover EndpointId repo is_open flag m).session.sent
          + allowance (recover EndpointId repo is_open flag m).reset_doc_state
        ≤ length m.session.sent + allowance flag
  unfolding recover
  recover-allowance is_open true m e = ground arith
  recover-allowance is_open false m e =
      let doc' = (repo.reset_doc_state_to_persisted m.doc).1 in
      ground (arith, send_generated_lem is_open (record m { doc = doc'; reset_doc_state = true }))

  -- What the bytes of a sync message mean, `none` where they do not decode.
  abbrev pub decoded : Option SyncMessage → Option (Option repo.SyncMsg)
  decoded none = some none
  decoded (some (sync_message bytes)) = elim (repo.decode bytes) [
    | none ↦ none
    | some msg ↦ some (some msg)
  ]

  -- The calls after some messages were delivered to the subscriber.
  abbrev pub delivered :
      List repo.Message → Option ℕ → List (Call repo.Message) → List (Call repo.Message)
  delivered (c ∷ cs) (some r) calls = process_messages r (c ∷ cs) ∷ calls
  delivered _ _ calls = calls

  -- The session after a reply, if there is one, went out.
  abbrev pub replied :
      (ℕ → Bool) → Option (Option repo.SyncMsg) → Session EndpointId → Session EndpointId
  replied is_open none s = s
  replied is_open (some out) s =
      send_message is_open (sync (Option.map (λ x. sync_message (repo.encode x)) out)) s

  handle_decoded :
      (is_open : ℕ → Bool) (bytes : Option SyncMessage) (msg : Option repo.SyncMsg)
      (m : Manager EndpointId repo)
      → decoded bytes ≡ some msg
      → handle_incomming_message EndpointId repo is_open (sync bytes) m
        ≡ receive_decoded EndpointId repo is_open msg m
  unfolding handle_incomming_message
  handle_decoded is_open none msg m d = ground arith
  handle_decoded is_open (some (sync_message bs)) msg m d = ground arith

  receive_good :
      (is_open : ℕ → Bool) (msg : Option repo.SyncMsg) (m : Manager EndpointId repo)
      (chunks : List repo.Message) (action : Option (Option repo.SyncMsg)) (doc' : repo.Doc)
      → repo.receive_sync_message msg m.doc ≡ (ok (chunks, action), doc')
      → receive_decoded EndpointId repo is_open msg m ≡ record m {
        doc = doc';
        reset_doc_state = false;
        calls = delivered chunks m.msg_receiver m.calls;
        session = replied is_open action m.session;
      }
  unfolding receive_decoded
  receive_good is_open msg m chunks action doc' r = ground arith

  -- The actor after some incoming messages, one after the other.
  pub handle_all :
      (ℕ → Bool) → List ProtoMessage → Manager EndpointId repo → Manager EndpointId repo
  handle_all is_open [] m = m
  handle_all is_open (msg ∷ msgs) m =
      handle_all is_open msgs (handle_incomming_message EndpointId repo is_open msg m)

  -- Each message is empty, or the document of the actor does not take it when its turn comes.
  abbrev pub EmptyOrRefused : (ℕ → Bool) → List ProtoMessage → Manager EndpointId repo → Type 0
  EmptyOrRefused is_open [] m = Unit {0}
  EmptyOrRefused is_open (msg ∷ msgs) m =
      ((msg ≡ sync none) ⊎ Refuses m.doc msg)
      × EmptyOrRefused is_open msgs (handle_incomming_message EndpointId repo is_open msg m)

  failing_receive :
      (is_open : ℕ → Bool) (msg : Option repo.SyncMsg) (m : Manager EndpointId repo) (e : LibError)
      → (repo.receive_sync_message msg m.doc).0 ≡ err e
      → length (receive_decoded EndpointId repo is_open msg m).session.sent
          + allowance (receive_decoded EndpointId repo is_open msg m).reset_doc_state
        ≤ length m.session.sent + allowance m.reset_doc_state
  unfolding receive_decoded
  failing_receive is_open msg m e r =
      let doc' = (repo.receive_sync_message msg m.doc).1 in
      ground (arith, r, recover-allowance is_open m.reset_doc_state (record m { doc = doc' }) refl)

  sent-replied :
      (is_open : ℕ → Bool) (action : Option (Option repo.SyncMsg)) (s : Session EndpointId)
      → length (replied is_open action s).sent ≤ suc (length s.sent)
  sent-replied is_open none s = omega arith
  sent-replied is_open (some out) s = sent-send_message-le is_open _ s

  -- An empty message sends one message at most, and may clear the flag of the reset.
  empty_receive :
      (is_open : ℕ → Bool) (m : Manager EndpointId repo)
      → length (receive_decoded EndpointId repo is_open none m).session.sent
          + allowance (receive_decoded EndpointId repo is_open none m).reset_doc_state
        ≤ length m.session.sent + allowance m.reset_doc_state + 2
  empty_receive is_open m = elim (Result-cases (repo.receive_sync_message none m.doc).0) [
    | inr (e, q) ↦ omega (arith, failing_receive is_open none m e q)
    | inl ((chunks, action), q) ↦
        rw
          (receive_good is_open none m chunks action (repo.receive_sync_message none m.doc).1
            (ground arith))
          (omega (arith, sent-replied is_open action m.session))
  ]

  failing_step :
      (is_open : ℕ → Bool) (msg : ProtoMessage) (m : Manager EndpointId repo)
      → (msg ≡ sync none) ⊎ Refuses m.doc msg
      → length (handle_incomming_message EndpointId repo is_open msg m).session.sent
          + allowance (handle_incomming_message EndpointId repo is_open msg m).reset_doc_state
        ≤ length m.session.sent + allowance m.reset_doc_state + 2 * empty_messages (msg ∷ [])
  unfolding handle_incomming_message
  failing_step is_open (sync none) m f = empty_receive is_open m
  failing_step is_open (sync (some (sync_message bytes))) m (inl e) = absurd (ground arith)
  failing_step is_open (sync (some (sync_message bytes))) m (inr f) =
      elim (Option-cases (repo.decode bytes)) [
        | inl e ↦ ground arith
        | inr (msg, e) ↦
            let (x, r) = f msg e in ground (arith, failing_receive is_open (some msg) m x r)
      ]

  empties-cons :
      (msg : ProtoMessage) (msgs : List ProtoMessage)
      → empty_messages (msg ∷ msgs) ≡ empty_messages (msg ∷ []) + empty_messages msgs
  empties-cons (sync none) msgs = omega arith
  empties-cons (sync (some _)) msgs = omega arith

  failing_run :
      (is_open : ℕ → Bool) (msgs : List ProtoMessage) (m : Manager EndpointId repo)
      → EmptyOrRefused is_open msgs m
      → length (handle_all is_open msgs m).session.sent
          + allowance (handle_all is_open msgs m).reset_doc_state
        ≤ length m.session.sent + allowance m.reset_doc_state + 2 * empty_messages msgs
  unfolding handle_all
  failing_run is_open [] m f = omega arith
  failing_run is_open (msg ∷ msgs) m (f, fs) = omega (
    arith,
    failing_step is_open msg m f,
    failing_run is_open msgs (handle_incomming_message EndpointId repo is_open msg m) fs,
    empties-cons msg msgs,
  )

  -- If each message that comes in is empty, or does not decode or makes the document fail, then
  -- however many come in, the actor sends at most one message in answer and two more for each empty
  -- one, and not the first if it has reset the document before: a peer that goes on sending bad
  -- messages, none of them empty, is not answered in a loop.
  pub failing_syncs_end :
      (is_open : ℕ → Bool) (msgs : List ProtoMessage) (m : Manager EndpointId repo)
      → EmptyOrRefused is_open msgs m
      → (length (handle_all is_open msgs m).session.sent
          ≤ suc (length m.session.sent) + 2 * empty_messages msgs)
        × ((m.reset_doc_state ≡ false)
            ⊎ (length (handle_all is_open msgs m).session.sent
                ≤ length m.session.sent + 2 * empty_messages msgs))
  failing_syncs_end is_open msgs m f = ground (arith, failing_run is_open msgs m f)

  -- What a sync message that decodes, or an empty one, does if the document takes it: the flag of the
  -- reset is cleared, the messages that it brought reach the subscriber if there are any and there is
  -- one, and the reply of the document, where it wants one, goes out; nothing else changes.
  pub good_sync :
      (is_open : ℕ → Bool) (bytes : Option SyncMessage) (msg : Option repo.SyncMsg)
      (m : Manager EndpointId repo) (chunks : List repo.Message)
      (action : Option (Option repo.SyncMsg)) (doc' : repo.Doc)
      → decoded bytes ≡ some msg
      → repo.receive_sync_message msg m.doc ≡ (ok (chunks, action), doc')
      → handle_incomming_message EndpointId repo is_open (sync bytes) m ≡ record m {
        doc = doc';
        reset_doc_state = false;
        calls = delivered chunks m.msg_receiver m.calls;
        session = replied is_open action m.session;
      }
  good_sync is_open bytes msg m chunks action doc' d r =
      handle_decoded is_open bytes msg m d ∙ receive_good is_open msg m chunks action doc' r
