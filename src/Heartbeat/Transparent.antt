-- ===== src/Heartbeat/Transparent.antt =====
-- The heartbeat never changes what the wrapped function does, and pings in the right order.
use mathlib.Core.List.{append-nil, append_assoc}
use gridpulse.Prelude.{
  String, ◌≡◌, ap, ◌∙◌, true, Option, List, [], ◌∷◌, ◌++◌, Result, ok, raise, Exc, Exec,
  is_exception, str_eq, inl, inr, Bool-cases, if◌then◌else◌, Result-cases,
}
use gridpulse.Heartbeat.{Observed, key_of, ping_url, swallowed, ping, settle, with_heartbeat}

module _ (environ : String → Option String) (strip : String → String) where
  abbrev key : String
  key = strip (key_of (environ "HEALTHCHECKS_PING_KEY"))

  -- The pings that an attempt to ping sends.
  abbrev pub sends : String → String → List String
  sends slug suffix = if str_eq key "" then [] else ping_url key slug suffix ∷ []

  -- What is pinged at the end.
  abbrev pub closing : {A : Type 0} → String → Result A → List String
  closing slug (ok a) = sends slug ""
  closing slug (raise e) = if is_exception e then sends slug "/fail" else []

  module _ (get : String → List String → Result (Unit {0}))
      -- a ping fails only with a subclass of `Exception`
      (only_exceptions : (url : String) (past : List String) (e : Exc)
        → get url past ≡ raise e
        → is_exception e ≡ true) where
    swallows : (url : String) (past : List String) → swallowed (get url past) ≡ ok tt
    swallows url past = elim (Result-cases (get url past)) [
      | inl (u, e) ↦ rw e
      | inr (x, e) ↦ rw (e, only_exceptions url past x e)
    ]

    module _ {W : Type 0} where
      ping_lem :
          (slug suffix : String) (s : Observed W)
          → ping environ strip get slug suffix s
            ≡ (ok tt, record s { pings = s.pings ++ sends slug suffix })
      unfolding ping
      ping_lem slug suffix s = elim (Bool-cases (str_eq key "")) [
        | inl e ↦ rw (e, append-nil)
        | inr e ↦ rw (e, swallows (ping_url key slug suffix) s.pings)
      ]

      settle_lem :
          {A : Type 0} (slug : String) (r : Result A) (s : Observed W)
          → settle environ strip get slug r s ≡ (r, record s { pings = s.pings ++ closing slug r })
      settle_lem slug (ok a) s = rw (ping_lem slug "" s)
      settle_lem slug (raise e) s = elim (Bool-cases (is_exception e)) [
        | inl h ↦ rw (h, ping_lem slug "/fail" s)
        | inr h ↦ rw (h, append-nil)
      ]

      -- Where a ping fails only with a subclass of `Exception`: the wrapped function runs once, on
      -- the world as it was, and its result, its exception and its effects come through unchanged,
      -- whether or not pings arrive. `/start` is pinged before it; then the bare slug if it
      -- returned, `/fail` if it raised a subclass of `Exception`, and nothing more if it raised
      -- anything else. Without a ping key nothing is pinged.
      pub with_heartbeat_transparent :
          {A : Type 0} (slug : String) (func : Exec W A) (s : Observed W)
          → with_heartbeat environ strip get slug func s ≡ (
            (func s.world).0,
            record {
              world = (func s.world).1;
              pings = s.pings ++ (sends slug "/start" ++ closing slug (func s.world).0);
            },
          )
      unfolding with_heartbeat
      with_heartbeat_transparent slug func s = rw (ping_lem slug "/start" s) (
          settle_lem slug (func s.world).0 _
          ∙ ap (λ l. ((func s.world).0, record { world = (func s.world).1; pings = l }))
              (append_assoc s.pings (sends slug "/start") (closing slug (func s.world).0)))
