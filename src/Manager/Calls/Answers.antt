-- ===== src/Manager/Calls/Answers.antt =====
-- What a caller of `send_message` in src/manager.rs gets of a running actor.
use tryst_core_portfolio.Prelude.{ℕ, Bool, ◌≡◌, refl, Option, ok, err, ◌⊎◌, inl, inr, arith, Result}
use Prim.Native.String.{String}
use tryst_core_portfolio.Failure.{LibError, from_lib_error}
use tryst_core_portfolio.Chat.Connection.{EndpointOrder}
use tryst_core_portfolio.Manager.Repository.{Repository}
use tryst_core_portfolio.Manager.Actor.{Manager}
use tryst_core_portfolio.Manager.Actor.Outgoing.{
  with_added, with_refused, handle_added, handle_refused,
}
use tryst_core_portfolio.Manager.Calls.{send_message_to}

module _ (EndpointId : Type 0) (repo : Repository) ⦃order : EndpointOrder EndpointId⦄
    (is_open : ℕ → Bool) (gone : String) where
  outcome :
      (tx : ℕ) (content : repo.Content) (m : Manager EndpointId repo)
      (result : Result (repo.Message × Option repo.SyncMsg) LibError) (doc' : repo.Doc)
      → repo.add_message content m.doc ≡ (result, doc')
      → ((msg : repo.Message) × (out : Option repo.SyncMsg) × (result ≡ ok (msg, out))
          × (send_message_to EndpointId repo is_open gone tx content m
              ≡ (ok msg, with_added EndpointId repo is_open tx m msg out doc')))
        ⊎ ((e : LibError) × (result ≡ err e)
            × (send_message_to EndpointId repo is_open gone tx content m
                ≡ (err (from_lib_error e), with_refused EndpointId repo is_open tx m e doc')))
  unfolding send_message_to
  outcome tx content m (ok (msg, out)) doc' h = inl (
    msg,
    out,
    refl,
    ground (arith, handle_added EndpointId repo is_open tx m content msg out doc' h),
  )
  outcome tx content m (err e) doc' h =
      inr (e, refl, ground (arith, handle_refused EndpointId repo is_open tx m content e doc' h))

  -- The caller of `send_message` gets the message that the repository has added to the document, and
  -- then the sync message goes out on the connection; or the caller gets the repository's error, in
  -- its category, and nothing goes out. In both cases the manager keeps the document that the
  -- repository leaves.
  send_message_to_lem :
      (tx : ℕ) (content : repo.Content) (m : Manager EndpointId repo)
      → ((msg : repo.Message) × (out : Option repo.SyncMsg) × ((repo.add_message content m.doc).0
            ≡ ok (msg, out))
          × (send_message_to EndpointId repo is_open gone tx content m ≡ (
            ok msg,
            with_added EndpointId repo is_open tx m msg out (repo.add_message content m.doc).1,
          )))
        ⊎ ((e : LibError) × ((repo.add_message content m.doc).0 ≡ err e)
            × (send_message_to EndpointId repo is_open gone tx content m ≡ (
              err (from_lib_error e),
              with_refused EndpointId repo is_open tx m e (repo.add_message content m.doc).1,
            )))
  send_message_to_lem tx content m =
      let (result, doc') = repo.add_message content m.doc in outcome tx content m result doc' refl
