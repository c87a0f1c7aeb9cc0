-- ===== src/Observability.antt =====
-- gridpulse/lib/observability.py: the settings with which Sentry is started, if at all. The
-- environment, `float` and Sentry's SDK are parameters.
use Prim.Native.String.{◌++◌}
use gridpulse.Prelude.{
  String, Option, none, some, Result, ok, Exec, continue, str_eq, if◌then◌else◌,
}
use gridpulse.Heartbeat.{key_of}

abbrev or_default : Option String → String → String
or_default none default = default
or_default (some value) default = value

-- The arguments of `sentry_sdk.init`; `F` is the type of floats.
pub record SentrySettings (F : Type 0) : Type 0 where
  pub dsn : String
  pub environment : String
  pub release : String
  pub traces_sample_rate : F

-- `init` is `sentry_sdk.init`, and `set_tag` sets the tag `component`.
module _ {F W : Type 0} (environ : String → Option String) (strip : String → String)
    (float : String → Result F) (init : SentrySettings F → Exec W (Unit {0}))
    (set_tag : String → Exec W (Unit {0})) where
  abbrev settings : String → F → SentrySettings F
  settings dsn rate = record {
    dsn = dsn;
    environment = or_default (environ "ENVIRONMENT") "local";
    release = "gridpulse@" ++ or_default (environ "GIT_SHA") "dev";
    traces_sample_rate = rate;
  }

  unfoldable pub init_sentry : String → Exec W (Unit {0})
  init_sentry component s =
      let dsn = strip (key_of (environ "SENTRY_DSN")) in
      if str_eq dsn ""
      then (ok tt, s)
      else continue (float (or_default (environ "SENTRY_TRACES_RATE") "0.0"), s)
          λ rate s'. continue (init (settings dsn rate) s') λ _ s''. set_tag component s''
