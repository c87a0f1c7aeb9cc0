-- ===== src/Ingestion/Retry.antt =====
-- How often a source is asked, and when an error is final.
use mathlib.Core.List.{append_assoc}
use gridpulse.Prelude.{
  ℕ, zero, suc, ◌≤◌, ◌<◌, ◌≡◌, ◌≢◌, refl, ap, sym, ◌∙◌, ◌⊎◌, true, false, List, [], ◌∷◌, ◌++◌,
  Result, ok, raise, Exc, Exec, transient_http_error, http_status_error, arith, inl, inr,
  Bool-cases, continue, replicate,
}
use gridpulse.Ingestion.Http.{
  Request, Response, Net, is_retried, Tenacity, Httpx, attempt, get_with_retry,
  raise_for_transient_status, decoded,
}

status_cases :
    (n : ℕ)
    → ((500 ≤ n) ⊎ (n ≡ 429))
      ⊎ ((400 ≤ n) × (n < 500) × (n ≢ 429))
      ⊎ ((200 ≤ n) × (n < 300))
      ⊎ ((n < 200) ⊎ ((300 ≤ n) × (n < 400)))
status_cases n = ground arith

module _ {J W : Type 0} (httpx : Httpx J W) where
  -- Every status from 500 on and 429 are transient, the other 4xx are final, 2xx passes, and what
  -- httpx makes of any other is passed on.
  pub raise_for_transient_status_classifies :
      (r : Response J)
      → (((500 ≤ r.status_code) ⊎ (r.status_code ≡ 429))
          × (raise_for_transient_status httpx.raise_for_status r ≡ raise transient_http_error))
        ⊎ ((400 ≤ r.status_code)
            × (r.status_code < 500)
            × (r.status_code ≢ 429)
            × (raise_for_transient_status httpx.raise_for_status r ≡ raise http_status_error))
        ⊎ ((200 ≤ r.status_code)
            × (r.status_code < 300)
            × (raise_for_transient_status httpx.raise_for_status r ≡ ok tt))
        ⊎ (((r.status_code < 200) ⊎ ((300 ≤ r.status_code) × (r.status_code < 400)))
            × (raise_for_transient_status httpx.raise_for_status r
                ≡ httpx.raise_for_status r.status_code))
  unfolding raise_for_transient_status
  raise_for_transient_status_classifies r = elim (status_cases r.status_code) [
    | inl h ↦ inl (h, ground arith)
    | inr (inl (h, k, l)) ↦
        inr (inl (h, k, l, ground (arith, httpx.status_client_error r.status_code h k)))
    | inr (inr (inl (h, k))) ↦
        inr (inr (inl (h, k, ground (arith, httpx.status_success r.status_code h k))))
    | inr (inr (inr h)) ↦ inr (inr (inr (h, ground arith)))
  ]

  -- One attempt sends one request.
  sent-attempt : (q : Request) (s : Net W) → (attempt httpx q s).1.sent ≡ s.sent ++ q ∷ []
  unfolding attempt
  sent-attempt q s = go (httpx.get q s.world).0
    where
      go :
          (r : Result (Response J))
          → (continue {S = Net W}
              (r, record { world = (httpx.get q s.world).1; sent = s.sent ++ q ∷ [] })
              λ r s'.
                (decoded httpx (raise_for_transient_status httpx.raise_for_status r) r, s')).1.sent
            ≡ s.sent ++ q ∷ []
      go (ok r) = refl
      go (raise e) = refl

  abbrev GivesUpEarly : Result J → Type 0
  GivesUpEarly (ok a) = Unit
  GivesUpEarly (raise e) = is_retried e ≡ false

  -- `m` requests were sent, at least one and at most `most`; fewer only if the last attempt
  -- returned or met an error that is not retried.
  pub record Asked (q : Request) (most : ℕ) (before : List Request) (r : Result J × Net W)
      : Type 0 where
    pub m : ℕ
    pub at_least : 1 ≤ m
    pub at_most : m ≤ most
    pub requests : r.1.sent ≡ before ++ replicate m q
    pub early : (m ≡ most) ⊎ GivesUpEarly r.0

  module _ (tenacity : Tenacity W) (q : Request) where
    open tenacity use {retrying, sleep, returns, gives_up, stops, tries_again}

    abbrev body : Exec (Net W) J
    body = attempt httpx q

    once : (s s' : Net W) (r : Result J) → body s ≡ (r, s') → s'.sent ≡ s.sent ++ q ∷ []
    once s s' r e = sym (ap (λ (x : Result J × Net W). x.1.sent) e) ∙ sent-attempt q s

    -- the attempt that is the last
    Asked-once :
        (most : ℕ) (s s' : Net W) (r : Result J)
        → body s ≡ (r, s')
        → 1 ≤ most
        → (1 ≡ most) ⊎ GivesUpEarly r
        → Asked q most s.sent (r, s')
    Asked-once most s s' r e h early = record {
      m = 1;
      at_least = omega arith;
      at_most = h;
      requests = once s s' r e;
      early = early;
    }

    Asked-again :
        (most : ℕ) (s s' : Net W) (e : Exc) (x : Result J × Net W)
        → body s ≡ (raise e, s')
        → Asked q most s'.sent x
        → Asked q (suc most) s.sent x
    Asked-again most s s' e x h a = record {
      m = suc a.m;
      at_least = omega arith;
      at_most = omega (arith, a.at_most);
      requests =
          a.requests
          ∙ (rw (once s s' (raise e) h) (append_assoc s.sent (q ∷ []) (replicate a.m q)));
      early = elim a.early [ inl k ↦ inl (ap suc k) | inr k ↦ inr k ];
    }

    retrying-Asked :
        (left n : ℕ) (s : Net W)
        → Asked q (suc left) s.sent (retrying is_retried (suc left) n body s)
    retrying-Asked zero n s = go (body s) refl
      where
        go : (x : Result J × Net W) → body s ≡ x → Asked q 1 s.sent (retrying is_retried 1 n body s)
        go (ok a, s') e =
            rw (returns is_retried 0 n body s s' a e)
              (Asked-once 1 s s' (ok a) e (omega arith) (inl refl))
        go (raise x, s') e =
            rw (stops is_retried n body s s' x e)
              (Asked-once 1 s s' (raise x) e (omega arith) (inl refl))
    retrying-Asked (suc left) n s = go (λ s'. retrying-Asked left (suc n) s') (body s) refl
      where
        go :
            ((s' : Net W)
              → Asked q (suc left) s'.sent (retrying is_retried (suc left) (suc n) body s'))
            → (x : Result J × Net W) → body s ≡ x
            → Asked q (suc (suc left)) s.sent (retrying is_retried (suc (suc left)) n body s)
        go ih (ok a, s') e =
            rw (returns is_retried (suc left) n body s s' a e)
              (Asked-once (suc (suc left)) s s' (ok a) e (omega arith) (inr tt))
        go ih (raise x, s') e = elim (Bool-cases (is_retried x)) [
          | inl again ↦
              rw (tries_again is_retried left n body s s' x e again)
                (Asked-again (suc left) s s' x _ e (ih (record s' { world = sleep n s'.world })))
          | inr final ↦
              rw (gives_up is_retried (suc left) n body s s' x e final)
                (Asked-once (suc (suc left)) s s' (raise x) e (omega arith) (inr final))
        ]

    -- A fetch sends its request at least once and at most three times, the same each time; it has
    -- sent fewer than three only if it returned or raised an error that is not retried.
    pub get_with_retry-Asked : (s : Net W) → Asked q 3 s.sent (get_with_retry httpx tenacity q s)
    unfolding get_with_retry
    get_with_retry-Asked s = retrying-Asked 2 1 s

    -- An error that is not retried ends the fetch after the first request.
    pub get_with_retry_final :
        (s s' : Net W) (e : Exc)
        → attempt httpx q s ≡ (raise e, s')
        → is_retried e ≡ false
        → (get_with_retry httpx tenacity q s ≡ (raise e, s')) × (s'.sent ≡ s.sent ++ q ∷ [])
    unfolding get_with_retry
    get_with_retry_final s s' e h k =
        (gives_up is_retried 2 1 body s s' e h k, once s s' (raise e) h)

    -- Where the first two attempts raise errors that are retried and the third, after the waits,
    -- returns, so does the fetch, with the same payload and state.
    pub get_with_retry_recovers :
        (s s₁ s₂ s₃ : Net W) (e₁ e₂ : Exc) (a : J)
        → attempt httpx q s ≡ (raise e₁, s₁)
        → is_retried e₁ ≡ true
        → attempt httpx q (record s₁ { world = sleep 1 s₁.world }) ≡ (raise e₂, s₂)
        → is_retried e₂ ≡ true
        → attempt httpx q (record s₂ { world = sleep 2 s₂.world }) ≡ (ok a, s₃)
        → get_with_retry httpx tenacity q s ≡ (ok a, s₃)
    unfolding get_with_retry
    get_with_retry_recovers s s₁ s₂ s₃ e₁ e₂ a h₁ k₁ h₂ k₂ h₃ =
        tries_again is_retried 1 1 body s s₁ e₁ h₁ k₁
        ∙ tries_again is_retried 0 2 body _ s₂ e₂ h₂ k₂
        ∙ returns is_retried 0 3 body _ s₃ a h₃
