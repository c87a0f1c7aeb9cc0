-- ===== src/Heartbeat.antt =====
-- gridpulse/lib/heartbeat.py. The environment and httpx' `get` are parameters; the URLs that are
-- pinged are kept beside the rest of the world, as is what the wrapped function does to it.
pub mod Transparent
use Prim.Native.String.{◌++◌}
use gridpulse.Prelude.{
  String, Bool, true, false, Option, none, some, List, [], ◌∷◌, Result, ok, raise, Exc, Exec,
  continue, is_exception, str_eq, if◌then◌else◌,
}
use mathlib.Core.List.{◌++◌ as append}

-- `W` is the world of the wrapped function. `pings` are the pings sent, whether or not they arrive.
pub record Observed (W : Type 0) : Type 0 where
  pub world : W
  pub pings : List String

abbrev pub hc_ping_base : String
hc_ping_base = "https://hc-ping.com"

-- f"{_HC_PING_BASE}/{key}/{slug}{suffix}"
abbrev pub ping_url : String → String → String → String
ping_url key slug suffix = hc_ping_base ++ ("/" ++ (key ++ ("/" ++ (slug ++ suffix))))

abbrev pub key_of : Option String → String
key_of none = ""
key_of (some k) = k

-- `except Exception` swallows the errors of the ping
abbrev pub swallowed : Result (Unit {0}) → Result (Unit {0})
swallowed (ok u) = ok tt
swallowed (raise e) = if is_exception e then ok tt else raise e

-- `environ` is `os.environ.get`, `strip` the method of `str`, and `get url past` what
-- `httpx.get(url, timeout=3.0)` gives after the pings `past`.
module _ {W : Type 0} (environ : String → Option String) (strip : String → String)
    (get : String → List String → Result (Unit {0})) where
  unfoldable pub ping : String → String → Exec (Observed W) (Unit {0})
  ping slug suffix s =
      let key = strip (key_of (environ "HEALTHCHECKS_PING_KEY")) in
      let url = ping_url key slug suffix in
      if str_eq key ""
      then (ok tt, s)
      else (swallowed (get url s.pings), record s { pings = append s.pings (url ∷ []) })

  -- the wrapped function works on the world, and leaves the pings alone
  abbrev pub lift : {A : Type 0} → Exec W A → Exec (Observed W) A
  lift func s = let (r, w) = func s.world in (r, record s { world = w })

  -- what the wrapper does with the outcome of the function
  abbrev pub settle : {A : Type 0} → String → Result A → Exec (Observed W) A
  settle slug (ok result) s = continue (ping slug "" s) λ _ s'. (ok result, s')
  settle slug (raise e) s =
      if is_exception e
      then continue (ping slug "/fail" s) (λ _ s'. (raise e, s'))
      else (raise e, s)

  unfoldable pub with_heartbeat : {A : Type 0} → String → Exec W A → Exec (Observed W) A
  unfolding ping
  with_heartbeat slug func s =
      continue (ping slug "/start" s) λ _ s'. let (r, s'') = lift func s' in settle slug r s''
