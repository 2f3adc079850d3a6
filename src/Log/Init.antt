-- ===== src/Log/Init.antt =====
-- `init_logger` of src/log.rs.
--
-- The process's subscriber is the state: tracing takes one only where none was set. The parser of
-- `EnvFilter` is a parameter.
use tryst_core_portfolio.Prelude.{
  Text, List, [], ◌∷◌, Option, none, some, Result, ok, err, ◌≡◌, refl, All,
}
use tryst_core_portfolio.Log.{LogLevel, filter_str}

pub data LoggerInitError : Type 0 where
  set_logger_error : LoggerInitError

pub record EnvFilters (Filter : Type 0) : Type 0 where
  pub try_new : Text → Option Filter
  -- `EnvFilter::new("info")`.
  pub info : Filter

module _ {Filter : Type 0} (env : EnvFilters Filter) where
  abbrev pub filter_of : LogLevel → LogLevel → Filter
  filter_of general_level gossip_core_level =
      elim (env.try_new (filter_str general_level gossip_core_level)) [
        | none ↦ env.info
        | some filter ↦ filter
      ]

module _ {Filter Logger : Type 0} (env : EnvFilters Filter) where
  init_logger :
      Logger
      → LogLevel
      → LogLevel
      → Option (Filter × Logger)
      → Result (Unit {0}) LoggerInitError × Option (Filter × Logger)
  init_logger logger general_level gossip_core_level none =
      (ok tt, some (filter_of env general_level gossip_core_level, logger))
  init_logger logger general_level gossip_core_level (some s) = (err set_logger_error, some s)

  -- The calls of a process, in order: their answers and the subscriber that is there in the end.
  init_loggers :
      List (Logger × LogLevel × LogLevel)
      → Option (Filter × Logger)
      → List (Result (Unit {0}) LoggerInitError) × Option (Filter × Logger)
  unfolding init_logger
  init_loggers [] s = ([], s)
  init_loggers ((logger, general, core) ∷ calls) s =
      let (result, s') = init_logger logger general core s in
      let (results, s'') = init_loggers calls s' in (result ∷ results, s'')

  later_calls :
      (calls : List (Logger × LogLevel × LogLevel)) (s : Filter × Logger)
      → All (λ r. r ≡ err set_logger_error) (init_loggers calls (some s)).0
        × ((init_loggers calls (some s)).1 ≡ some s)
  unfolding init_loggers init_logger
  later_calls [] s = (tt, refl)
  later_calls (c ∷ calls) s = let (a, b) = later_calls calls s in ((refl, a), b)

  -- The first call of a process installs its logger, with its levels; every later one fails and changes
  -- nothing.
  first_logger_stays :
      (logger : Logger) (general core : LogLevel) (calls : List (Logger × LogLevel × LogLevel))
      → ((init_loggers ((logger, general, core) ∷ calls) none).1
          ≡ some (filter_of env general core, logger))
        × All
            (λ r. r ≡ err set_logger_error)
            (init_loggers calls (some (filter_of env general core, logger))).0
  unfolding init_loggers init_logger
  first_logger_stays logger general core calls =
      let (a, b) = later_calls calls (filter_of env general core, logger) in (b, a)
