-- ===== src/App/Startup/Failures.antt =====
-- What a start of the application, src/app.rs, has done when it succeeds and when it fails.
use tryst_core_portfolio.Prelude.{
  Text, ℕ, Bool, true, false, List, [], ◌∷◌, ◌++◌, Option, none, some, ok, err, ◌≡◌, refl, sym,
  subst, ◌⊎◌, inl, inr, All, arith, Option-cases, Result-cases,
}
use Prim.Native.String.{String}
use tryst_core_portfolio.Failure.{
  GossipError, LibError, sqlx, sqlx_migrations, internal, storage, from_lib_error,
}
use tryst_core_portfolio.Prelude.Runs.{Run}
use tryst_core_portfolio.App.Startup.{
  Libraries, Call, checks_database, creates_database, connects, migrates, builds_discovery, binds,
  spawns_router, spawns_actor, Application, setup_db, start, new_actor, new_with_config,
}

module _ {Pool Endpoint : Type 0} where
  abbrev pub last_call : List (Call Pool Endpoint) → Option (Call Pool Endpoint)
  last_call [] = none
  last_call (c ∷ []) = some c
  last_call (c ∷ d ∷ cs) = last_call (d ∷ cs)

  -- A call after which something runs that nobody would stop.
  abbrev pub starts_task : Call Pool Endpoint → Bool
  starts_task (spawns_router _) = true
  starts_task (spawns_actor _) = true
  starts_task _ = false

module _ {SecretKey PublicKey Pool Discovery Endpoint : Type 0}
    (libs : Libraries SecretKey PublicKey Pool Discovery Endpoint) where
  -- The database of a key.
  abbrev pub url_of : Text → SecretKey → Text
  url_of directory key =
      directory ++ (47 ∷ (libs.public_text (libs.public key) ++ 46 ∷ 100 ∷ 98 ∷ []))

  abbrev pub created : Text → Bool → List (Call Pool Endpoint)
  created url true = []
  created url false = creates_database url ∷ []

  -- What the database of a start that goes on has answered: whether it was there, that it was created
  -- if not, and that it was connected to and migrated.
  abbrev pub Answered : Text → Bool → Pool → Type 0
  Answered url exists db_pool =
      (libs.database_exists url ≡ ok exists)
      × ((exists ≡ true) ⊎ (libs.create_database url ≡ ok tt))
      × (libs.connect url ≡ ok db_pool)
      × (libs.migrate db_pool ≡ ok tt)

  -- The endpoint of a key is bound, with the discovery that was built.
  abbrev pub Bound : SecretKey → ℕ → Endpoint → Type 0
  Bound key ttl endpoint =
      (discovery : Discovery) × (libs.build_discovery key ttl false ≡ some discovery)
      × (libs.bind key discovery ≡ some endpoint)

  -- A start that has made its calls in order, each of which has worked, with the application that it gives.
  abbrev pub Succeeds :
      Text
      → Text
      → ℕ
      → Run (Call Pool Endpoint) (Application SecretKey PublicKey Pool Endpoint) GossipError
      → Type 0
  Succeeds text directory ttl r =
      (app : Application SecretKey PublicKey Pool Endpoint) × (exists : Bool) × (r.0 ≡ ok app)
      × (libs.from_str text ≡ some app.secret_key)
      × Answered (url_of directory app.secret_key) exists app.db_pool
      × Bound app.secret_key ttl app.endpoint
      × (r.1
          ≡ checks_database (url_of directory app.secret_key)
            ∷ (created (url_of directory app.secret_key) exists
                ++ connects (url_of directory app.secret_key)
                  ∷ migrates app.db_pool
                  ∷ builds_discovery
                  ∷ binds
                  ∷ spawns_router app.endpoint
                  ∷ spawns_actor app.endpoint
                  ∷ []))
      × (app.actor.registry.chat_managers ≡ [])

  -- The call of a database that failed, for its url: what the library answered, and the error.
  abbrev pub Rejected : Text → Option (Call Pool Endpoint) → GossipError → Type 0
  Rejected url (some (checks_database u)) e =
      (t : String) × (u ≡ url) × (libs.database_exists url ≡ err t) × (e ≡ storage t)
  Rejected url (some (creates_database u)) e =
      (t : String) × (u ≡ url)
      × (libs.database_exists url ≡ ok false)
      × (libs.create_database url ≡ err t)
      × (e ≡ storage t)
  Rejected url (some (connects u)) e =
      (t : String) × (u ≡ url) × (libs.connect url ≡ err t) × (e ≡ storage t)
  Rejected url (some (migrates pool)) e =
      (t : String) × (libs.connect url ≡ ok pool) × (libs.migrate pool ≡ err t) × (e ≡ storage t)
  Rejected url _ e = ⊥

  -- What made a start fail, by its last call: without any call the text was no key, and otherwise it
  -- was one, and the last call failed.
  abbrev pub Blames : Text → Text → ℕ → Option (Call Pool Endpoint) → GossipError → Type 0
  Blames text directory ttl none e =
      (libs.from_str text ≡ none) × (e ≡ internal "Expected to get secret key from string.")
  Blames text directory ttl (some builds_discovery) e =
      (key : SecretKey) × (libs.from_str text ≡ some key)
      × (libs.build_discovery key ttl false ≡ none)
      × (e ≡ internal "Failed to build standard discovery.")
  Blames text directory ttl (some binds) e =
      (key : SecretKey) × (discovery : Discovery) × (libs.from_str text ≡ some key)
      × (libs.build_discovery key ttl false ≡ some discovery)
      × (libs.bind key discovery ≡ none)
      × (e ≡ internal "Failed to start network endpoint.")
  Blames text directory ttl c e =
      (key : SecretKey) × (libs.from_str text ≡ some key) × Rejected (url_of directory key) c e

  -- A start that has started no task, and reports what made it fail.
  abbrev pub Fails :
      Text
      → Text
      → ℕ
      → Run (Call Pool Endpoint) (Application SecretKey PublicKey Pool Endpoint) GossipError
      → Type 0
  Fails text directory ttl r =
      (e : GossipError) × (r.0 ≡ err e)
      × All (λ c. starts_task c ≡ false) r.1
      × Blames text directory ttl (last_call r.1) e

  abbrev Ends :
      Text
      → Text
      → ℕ
      → Run (Call Pool Endpoint) (Application SecretKey PublicKey Pool Endpoint) GossipError
      → Type 0
  Ends text directory ttl r = Succeeds text directory ttl r ⊎ Fails text directory ttl r

  ended :
      (text directory : Text) (ttl : ℕ)
      (r : Run (Call Pool Endpoint) (Application SecretKey PublicKey Pool Endpoint) GossipError)
      → new_with_config libs text directory ttl ≡ r
      → Ends text directory ttl r
      → Ends text directory ttl (new_with_config libs text directory ttl)
  ended text directory ttl r e h = subst (Ends text directory ttl) (sym e) h

  -- The database is there, with the calls that were made for it.
  abbrev Opened : Text → Run (Call Pool Endpoint) Pool LibError → Type 0
  Opened url r =
      (exists : Bool) × (db_pool : Pool) × Answered url exists db_pool
      × (r ≡ (
        ok db_pool,
        checks_database url ∷ (created url exists ++ connects url ∷ migrates db_pool ∷ []),
      ))

  abbrev Refused : Text → Run (Call Pool Endpoint) Pool LibError → Type 0
  Refused url r =
      (e : LibError) × (calls : List (Call Pool Endpoint)) × (text : String) × (r ≡ (err e, calls))
      × (from_lib_error e ≡ storage text)
      × All (λ c. starts_task c ≡ false) calls
      × Rejected url (last_call calls) (storage text)

  connecting :
      (url : Text) (exists : Bool)
      → libs.database_exists url ≡ ok exists
      → (exists ≡ true) ⊎ (libs.create_database url ≡ ok tt)
      → Opened url (setup_db libs url) ⊎ Refused url (setup_db libs url)
  unfolding setup_db from_lib_error
  connecting url exists ex cr = elim (Result-cases (libs.connect url)) [
    | inr (x, co) ↦ inr (
      sqlx x,
      checks_database url ∷ (created url exists ++ connects url ∷ []),
      x,
      ground arith,
      refl,
      ground arith,
      ground arith,
    )
    | inl (db_pool, co) ↦ elim (Result-cases (libs.migrate db_pool)) [
      | inr (x, mi) ↦ inr (
        sqlx_migrations x,
        checks_database url ∷ (created url exists ++ connects url ∷ migrates db_pool ∷ []),
        x,
        ground arith,
        refl,
        ground arith,
        ground arith,
      )
      | inl (_, mi) ↦ inl (exists, db_pool, (ex, cr, co, mi), ground arith)
    ]
  ]

  opening : (url : Text) → Opened url (setup_db libs url) ⊎ Refused url (setup_db libs url)
  unfolding setup_db from_lib_error
  opening url = elim (Result-cases (libs.database_exists url)) [
    | inr (x, ex) ↦
        inr
          (sqlx x, checks_database url ∷ [], x, ground arith, refl, (refl, tt), (x, refl, ex, refl))
    | inl (true, ex) ↦ connecting url true ex (inl refl)
    | inl (false, ex) ↦ elim (Result-cases (libs.create_database url)) [
      | inr (x, cr) ↦ inr (
        sqlx x,
        checks_database url ∷ creates_database url ∷ [],
        x,
        ground arith,
        refl,
        (refl, (refl, tt)),
        (x, refl, ex, cr, refl),
      )
      | inl (_, cr) ↦ connecting url false ex (inr cr)
    ]
  ]

  networks :
      (text directory : Text) (ttl : ℕ) (key : SecretKey)
      → libs.from_str text ≡ some key
      → (exists : Bool) (db_pool : Pool) → Answered (url_of directory key) exists db_pool
      → setup_db libs (url_of directory key) ≡ (
        ok db_pool,
        checks_database (url_of directory key)
            ∷ (created (url_of directory key) exists
                ++ connects (url_of directory key) ∷ migrates db_pool ∷ []),
      )
      → Ends text directory ttl (new_with_config libs text directory ttl)
  unfolding new_with_config start new_actor from_lib_error
  networks text directory ttl key e exists db_pool ex r =
      let url = url_of directory key in
      let opened = λ (cs : List (Call Pool Endpoint)).
        checks_database url ∷ (created url exists ++ connects url ∷ migrates db_pool ∷ cs) in
      elim (Option-cases (libs.build_discovery key ttl false)) [
        | inl bd ↦
            ended text directory ttl
              (err (internal "Failed to build standard discovery."), opened (builds_discovery ∷ []))
              (ground arith) (inr (_, refl, ground arith, ground arith))
        | inr (discovery, bd) ↦ elim (Option-cases (libs.bind key discovery)) [
          | inl bi ↦
              ended text directory ttl
                (
                  err (internal "Failed to start network endpoint."),
                  opened (builds_discovery ∷ binds ∷ []),
                )
                (ground arith) (inr (_, refl, ground arith, ground arith))
          | inr (endpoint, bi) ↦
              let app : Application SecretKey PublicKey Pool Endpoint = record {
                secret_key = key;
                db_pool = db_pool;
                endpoint = endpoint;
                handle = record { cancelled = false; join_handle = some 0; awaited = [] };
                actor = new_actor libs key;
              } in
              ended text directory ttl
                (
                  ok app,
                  opened (
                      builds_discovery
                      ∷ binds
                      ∷ spawns_router endpoint
                      ∷ spawns_actor endpoint
                      ∷ []),
                )
                (ground arith) (inl (app, exists, refl, e, ex, (discovery, bd, bi), refl, refl))
        ]
      ]

  blamed :
      (text directory : Text) (ttl : ℕ) (key : SecretKey) (c : Option (Call Pool Endpoint))
      (x : GossipError)
      → libs.from_str text ≡ some key
      → Rejected (url_of directory key) c x
      → Blames text directory ttl c x
  blamed text directory ttl key none x e b = elim b [ ]
  blamed text directory ttl key (some (checks_database u)) x e b = (key, e, b)
  blamed text directory ttl key (some (creates_database u)) x e b = (key, e, b)
  blamed text directory ttl key (some (connects u)) x e b = (key, e, b)
  blamed text directory ttl key (some (migrates p)) x e b = (key, e, b)
  blamed text directory ttl key (some builds_discovery) x e b = elim b [ ]
  blamed text directory ttl key (some binds) x e b = elim b [ ]
  blamed text directory ttl key (some (spawns_router p)) x e b = elim b [ ]
  blamed text directory ttl key (some (spawns_actor p)) x e b = elim b [ ]

  -- A start that succeeds has made its calls in order, each of which has worked, created a database
  -- only where there was none, and gives an application with the key of the text, the pool that was migrated and an
  -- actor without managers. One that fails has started no task. If it has made no call, the text was
  -- no key; otherwise the text was one and the last call has failed: the one on the database of the
  -- key that answered with an error, which is reported as `storage` with its text, or the discovery
  -- that could not be built or the endpoint that could not be bound, reported as `internal`.
  pub new_with_config_lem :
      (text directory : Text) (ttl : ℕ)
      → Succeeds text directory ttl (new_with_config libs text directory ttl)
        ⊎ Fails text directory ttl (new_with_config libs text directory ttl)
  unfolding new_with_config start new_actor
  new_with_config_lem text directory ttl = elim (Option-cases (libs.from_str text)) [
    | inl e ↦
        ended text directory ttl (err (internal "Expected to get secret key from string."), [])
          (ground arith) (inr (_, refl, tt, (e, refl)))
    | inr (key, e) ↦ elim (opening (url_of directory key)) [
      | inr (x, calls, t, r, q, a, b) ↦
          ended text directory ttl (err (storage t), calls) (ground arith)
            (inr (storage t, refl, a, blamed text directory ttl key (last_call calls) _ e b))
      | inl (exists, db_pool, ex, r) ↦ networks text directory ttl key e exists db_pool ex r
    ]
  ]
