-- ===== src/Manager/Exchange/Moves.antt =====
-- What a turn of a manager of src/manager.rs means for the peer that it exchanges sync messages with.
use tryst_core_portfolio.Prelude.{
  ℕ, Bool, true, List, [], ◌∷◌, ◌++◌, ◌≡◌, ◌∙◌, refl, ap, sym, subst, ◌⊎◌, inl, inr, Option, none,
  some, arith, append-nil, Option-cases, ok,
}
use mathlib.Core.Option
use tryst_core_portfolio.Chat.Message.{SyncMessage, sync_message, ProtoMessage, sync}
use tryst_core_portfolio.Chat.Connection.{EndpointOrder}
use tryst_core_portfolio.Manager.Repository.{Repository}
use tryst_core_portfolio.Manager.Actor.{Manager}
use tryst_core_portfolio.Manager.Actor.Sync.{decoded}
use tryst_core_portfolio.Manager.Actor.Reports.{Reports, Linked, Silent, Tells}
use tryst_core_portfolio.Manager.Loop.{turn, incoming}
use tryst_core_portfolio.Manager.Loop.Reports.{turn-Reports, takes-Reports, takes-conn}
use tryst_core_portfolio.Manager.Exchange.{Move, acts, takes, posted}
use tryst_core_portfolio.Manager.Exchange.Queues.{
  has_any, asks, has_any-append, asks-append, posted-same, posted-one,
}

-- A side is in sync, or something is on the way to it, or it has asked for an answer.
abbrev pub Settles : Bool → List ProtoMessage → List ProtoMessage → Type 0
Settles synced inbox outbox = (synced ≡ true) ⊎ (has_any inbox ≡ true) ⊎ (asks outbox ≡ true)

-- A side and its peer, whose sync status is given.
abbrev pub Both : Bool → Bool → List ProtoMessage → List ProtoMessage → Type 0
Both mine theirs inbox outbox = Settles mine inbox outbox × Settles theirs outbox inbox

asks-grows : (msgs more : List ProtoMessage) → asks msgs ≡ true → asks (msgs ++ more) ≡ true
asks-grows [] more a = absurd (ground arith)
asks-grows (sync none ∷ msgs) more a = asks-grows msgs more a
asks-grows (sync (some _) ∷ msgs) more a = refl

decoded-none :
    (EndpointId : Type 0) (repo : Repository) (bytes : Option SyncMessage)
    → decoded EndpointId repo bytes ≡ some none
    → bytes ≡ none
decoded-none EndpointId repo none e = refl
decoded-none EndpointId repo (some (sync_message bs)) e = elim (Option-cases (repo.decode bs)) [
  | inl q ↦ ground arith
  | inr (msg, q) ↦ ground arith
]

pub settled :
    (status : Bool) (inbox outbox : List ProtoMessage)
    → inbox ≡ []
    → outbox ≡ []
    → Settles status inbox outbox
    → status ≡ true
settled status inbox outbox i o h = ground arith

module _ {EndpointId : Type 0} ⦃order : EndpointOrder EndpointId⦄ {repo : Repository}
    (is_open : ℕ → Bool) (law : Reports repo) where
  abbrev pub synced : Manager EndpointId repo → Bool
  synced m = repo.sync_status m.doc

  told_queue :
      (m m' : Manager EndpointId repo) (outbox : List ProtoMessage)
      → (t : Tells EndpointId repo is_open m m')
      → outbox ++ posted m.session m'.session
        ≡ outbox ++ sync (Option.map (λ x. sync_message (repo.encode x)) t.0) ∷ []
  told_queue m m' outbox (out, tx, e, s) = ap (◌++◌ outbox) (posted-one m.session m'.session tx _ e)

  -- What a side tells answers its peer, and asks for an answer if the side is not in sync.
  pub telling-Both :
      (m m' : Manager EndpointId repo) (theirs : Bool) (inbox outbox : List ProtoMessage)
      → Tells EndpointId repo is_open m m'
      → Both (synced m') theirs inbox (outbox ++ posted m.session m'.session)
  telling-Both m m' theirs inbox outbox (none, tx, e, s) =
      let q = told_queue m m' outbox (none, tx, e, s) in
      (inl s, inr (inl (ap has_any q ∙ has_any-append outbox _)))
  telling-Both m m' theirs inbox outbox (some out, tx, e, s) =
      let q = told_queue m m' outbox (some out, tx, e, s) in
      (
        inr (inr (ap asks q ∙ asks-append outbox _)),
        inr (inl (ap has_any q ∙ has_any-append outbox _)),
      )

  silence-Both :
      (m m' : Manager EndpointId repo) (theirs : Bool) (inbox outbox : List ProtoMessage)
      → Silent EndpointId repo is_open m m'
      → Both (synced m) theirs inbox outbox
      → Both (synced m') theirs inbox (outbox ++ posted m.session m'.session)
  silence-Both m m' theirs inbox outbox (e, s) h =
      subst (λ o. Both (synced m') theirs inbox o)
        (sym (ap (◌++◌ outbox) (posted-same m.session m'.session e) ∙ append-nil outbox))
        (subst (λ b. Both b theirs inbox outbox) (sym s) h)

  -- A side that takes an empty message without an answer is in sync; the message asked for nothing.
  hears-Both :
      (m m' : Manager EndpointId repo) (theirs : Bool) (rest outbox : List ProtoMessage)
      → m'.session ≡ m.session
      → synced m' ≡ true
      → Settles theirs outbox (sync none ∷ rest)
      → Both (synced m') theirs rest (outbox ++ posted m.session m'.session)
  hears-Both m m' theirs rest outbox e s h =
      subst (λ o. Both (synced m') theirs rest o)
        (sym (
          ap (◌++◌ outbox) (posted-same m.session m'.session (ap (λ x. x.sent) e))
          ∙ append-nil outbox))
        (inl s, h)

  takes-Both :
      (bytes : Option SyncMessage) (rest : List ProtoMessage) (msg : Option repo.SyncMsg)
      (m : Manager EndpointId repo) (chunks : List repo.Message)
      (action : Option (Option repo.SyncMsg)) (d' : repo.Doc) (theirs : Bool)
      (outbox : List ProtoMessage)
      → Linked EndpointId repo is_open m
      → decoded EndpointId repo bytes ≡ some msg
      → repo.receive_sync_message msg m.doc ≡ (ok (chunks, action), d')
      → Both (synced m) theirs (sync bytes ∷ rest) outbox
      → Both
          (synced (turn EndpointId repo is_open (incoming (λ _. some (sync bytes))) m).0)
          theirs
          rest
          (outbox
            ++ posted m.session
                (turn EndpointId repo is_open (incoming (λ _. some (sync bytes))) m).0.session)
  takes-Both bytes rest msg m chunks action d' theirs outbox l d r h =
      let m' = (turn EndpointId repo is_open (incoming (λ _. some (sync bytes))) m).0 in
      elim (takes-Reports EndpointId repo is_open law bytes msg m chunks action d' l d r) [
        | inl (empty, e, s) ↦
            let b = decoded-none EndpointId repo bytes (d ∙ ap some empty) in
            hears-Both m m' theirs rest outbox e s
              (subst (λ x. Settles theirs outbox (sync x ∷ rest)) b h.1)
        | inr t ↦ telling-Both m m' theirs rest outbox t
      ]

  pub Linked-conn :
      (m m' : Manager EndpointId repo)
      → m'.session.conn ≡ m.session.conn
      → Linked EndpointId repo is_open m
      → Linked EndpointId repo is_open m'
  Linked-conn m m' e l = record {
    handle = l.handle;
    holds = ap (λ c. c.state) e ∙ l.holds;
    opened = l.opened;
    shown = ap (λ c. c.published) e ∙ l.shown;
  }

  pub Move-Both :
      {m m' : Manager EndpointId repo} {inbox outbox inbox' outbox' : List ProtoMessage}
      (theirs : Bool)
      → Move repo is_open m inbox outbox m' inbox' outbox'
      → Linked EndpointId repo is_open m
      → Both (synced m) theirs inbox outbox
      → Linked EndpointId repo is_open m' × Both (synced m') theirs inbox' outbox'
  Move-Both {m} {inbox = inbox} {outbox} theirs (acts b i c e) l h =
      let m' = (turn EndpointId repo is_open b m).0 in
      (
        Linked-conn m m' e l,
        elim (turn-Reports EndpointId repo is_open law b m i l) [
          | inl silent ↦ silence-Both m m' theirs inbox outbox silent h
          | inr told ↦ telling-Both m m' theirs inbox outbox told
        ],
      )
  Move-Both {m} {outbox = outbox} theirs (takes bytes rest msg chunks action d' q d r) l h =
      let m' = (turn EndpointId repo is_open (incoming (λ _. some (sync bytes))) m).0 in
      (
        Linked-conn m m' (takes-conn EndpointId repo is_open law bytes msg m chunks action d' l d r)
            l,
        takes-Both bytes rest msg m chunks action d' theirs outbox l d r
            (subst (λ i. Both (synced m) theirs i outbox) q h),
      )
