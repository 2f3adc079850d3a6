-- ===== src/Manager/Exchange/Invariant.antt =====
-- What holds between two managers of src/manager.rs while they exchange sync messages.
use tryst_core_portfolio.Prelude.{ℕ, Bool, true, [], ◌≡◌}
use tryst_core_portfolio.Manager.Exchange.Moves.{
  Both, settled, telling-Both, Linked-conn, Move-Both,
}
use tryst_core_portfolio.Chat.Connection.{EndpointOrder}
use tryst_core_portfolio.Manager.Repository.{Repository}
use tryst_core_portfolio.Manager.Actor.{Manager}
use tryst_core_portfolio.Manager.Actor.Reports.{Reports, Linked}
use tryst_core_portfolio.Manager.Loop.Reports.{changes-Tells, changes-conn}
use tryst_core_portfolio.Manager.Exchange.{Net, Step, at_left, at_right, start, Reach, here, later}

module _ {EndpointId : Type 0} ⦃order : EndpointOrder EndpointId⦄
    {left_repo right_repo : Repository} (left_open right_open : ℕ → Bool)
    (left_law : Reports left_repo) (right_law : Reports right_repo) where
  -- Both sides hold a connection whose channel is open, and each is in sync, or something is on the
  -- way to it, or it has asked for an answer.
  record Exchanging (n : Net EndpointId left_repo right_repo) : Type 0 where
    left_linked : Linked EndpointId left_repo left_open n.left
    right_linked : Linked EndpointId right_repo right_open n.right
    both :
        Both
          (left_repo.sync_status n.left.doc)
          (right_repo.sync_status n.right.doc)
          n.to_left
          n.to_right

  Step-Exchanging :
      {a b : Net EndpointId left_repo right_repo}
      → Step left_open right_open a b
      → Exchanging a
      → Exchanging b
  Step-Exchanging {a} (at_left mv) x =
      let t = right_repo.sync_status a.right.doc in
      let (l, b) = Move-Both left_open left_law t mv x.left_linked x.both in
      record { left_linked = l; right_linked = x.right_linked; both = b }
  Step-Exchanging {a} (at_right mv) x =
      let t = left_repo.sync_status a.left.doc in
      let (r, b) = Move-Both right_open right_law t mv x.right_linked (x.both.1, x.both.0) in
      record { left_linked = x.left_linked; right_linked = r; both = (b.1, b.0) }

  Reach-Exchanging :
      {a b : Net EndpointId left_repo right_repo}
      → Reach left_open right_open a b
      → Exchanging a
      → Exchanging b
  Reach-Exchanging here x = x
  Reach-Exchanging (later r s) x = Step-Exchanging s (Reach-Exchanging r x)

  start-Exchanging :
      (l : Manager EndpointId left_repo) (r : Manager EndpointId right_repo)
      → Linked EndpointId left_repo left_open l
      → Linked EndpointId right_repo right_open r
      → Exchanging (start left_open right_open l r)
  start-Exchanging l r ll rl =
      let n = start left_open right_open l r in
      record {
        left_linked =
            Linked-conn left_open left_law l n.left
              (changes-conn EndpointId left_repo left_open left_law l ll) ll;
        right_linked =
            Linked-conn right_open right_law r n.right
              (changes-conn EndpointId right_repo right_open right_law r rl) rl;
        both =
            telling-Both left_open left_law l n.left (right_repo.sync_status n.right.doc) n.to_left
              [] (changes-Tells EndpointId left_repo left_open left_law l ll);
      }

  -- Two managers at the ends of a connection whose channels are open, from the moment when both have
  -- handled that they are connected, whatever they did before: however their turns come in between,
  -- ticks, calls and messages of the peer, as long as both keep the connection and take the messages,
  -- whenever nothing is on the way both report that they are in sync.
  pub exchange_ends_in_sync :
      (l : Manager EndpointId left_repo) (r : Manager EndpointId right_repo)
      (n : Net EndpointId left_repo right_repo)
      → Linked EndpointId left_repo left_open l
      → Linked EndpointId right_repo right_open r
      → Reach left_open right_open (start left_open right_open l r) n
      → n.to_left ≡ []
      → n.to_right ≡ []
      → (left_repo.sync_status n.left.doc ≡ true) × (right_repo.sync_status n.right.doc ≡ true)
  exchange_ends_in_sync l r n ll rl run i o =
      let b = (Reach-Exchanging run (start-Exchanging l r ll rl)).both in
      (settled _ n.to_left n.to_right i o b.0, settled _ n.to_right n.to_left o i b.1)
