-- ===== src/Manager/Actor/Outgoing.antt =====
-- What the actor of src/manager.rs makes of a caller's requests that are heard.
use tryst_core_portfolio.Prelude.{ℕ, Bool, true, ◌∷◌, ◌≡◌, Option, some, ok, err, arith}
use tryst_core_portfolio.Failure.{LibError}
use tryst_core_portfolio.Chat.Connection.{EndpointOrder}
use tryst_core_portfolio.Manager.Repository.{Repository}
use tryst_core_portfolio.Manager.Actor.{Manager, continues, added, single, handle_outgoing_message}
use tryst_core_portfolio.Manager.Actor.Sync.{replied}

module _ (EndpointId : Type 0) (repo : Repository) ⦃order : EndpointOrder EndpointId⦄
    (is_open : ℕ → Bool) (tx : ℕ) (m : Manager EndpointId repo) where
  -- The manager after a message was added.
  abbrev pub with_added : repo.Message → Option repo.SyncMsg → repo.Doc → Manager EndpointId repo
  with_added msg out doc' = record m {
    doc = doc';
    session = replied EndpointId repo is_open (some out) m.session;
    answers = added tx (ok msg) ∷ m.answers;
  }

  -- The manager after a message was refused.
  abbrev pub with_refused : LibError → repo.Doc → Manager EndpointId repo
  with_refused e doc' = record m { doc = doc'; answers = added tx (err e) ∷ m.answers }

  pub handle_added :
      (content : repo.Content) (msg : repo.Message) (out : Option repo.SyncMsg) (doc' : repo.Doc)
      → repo.add_message content m.doc ≡ (ok (msg, out), doc')
      → handle_outgoing_message EndpointId repo is_open (some (single content tx true)) m
        ≡ (with_added msg out doc', continues)
  unfolding handle_outgoing_message
  handle_added content msg out doc' h = ground arith

  pub handle_refused :
      (content : repo.Content) (e : LibError) (doc' : repo.Doc)
      → repo.add_message content m.doc ≡ (err e, doc')
      → handle_outgoing_message EndpointId repo is_open (some (single content tx true)) m
        ≡ (with_refused e doc', continues)
  unfolding handle_outgoing_message
  handle_refused content e doc' h = ground arith
