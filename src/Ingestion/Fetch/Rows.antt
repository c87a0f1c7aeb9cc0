-- ===== src/Ingestion/Fetch/Rows.antt =====
-- What a fetch sends and what it returns.
use mathlib.Core.List.{append-nil, append_assoc}
use mathlib.Core.Path.{subst}
use gridpulse.Prelude.{
  ℕ, ◌≤◌, ◌≡◌, refl, ap, sym, ◌∙◌, String, List, [], ◌∷◌, ◌++◌, Result, ok, raise, Exec, continue,
  >>=-eq-ok, ok-injective, replicate,
}
use gridpulse.Contracts.Octopus.{AgileRatesResponse, AgilePriceRow, agile_to_rows}
use gridpulse.Ingestion.Http.{Net, Httpx, Tenacity, get_with_retry}
use gridpulse.Ingestion.Retry.{get_with_retry-Asked}
use gridpulse.Ingestion.Fetch.{
  agile_request, fetch_agile_rates_for_region, fetch_each, fetch_agile_rates_all_regions,
}

-- A fetch that returned had its payload, and converted it.
pub continue-ok :
    {S A B : Type 0} (x : Result A × S) (f : A → Exec S B) {b : B} {s' : S}
    → continue x f ≡ (ok b, s')
    → (a : A) × (s : S) × (x ≡ (ok a, s)) × (f a s ≡ (ok b, s'))
continue-ok (ok a, s) f h = (a, s, refl, h)
continue-ok (raise e, s) f h = cc (ap (λ y. y.0) h)

module _ {J W F : Type 0} (httpx : Httpx J W) (tenacity : Tenacity W)
    (validate : J → Result (AgileRatesResponse F)) where
  -- How a region was answered: its own request was sent, one to three times and no other, and the
  -- payload that then came was validated.
  pub record Answer (code : String) (s s' : Net W) (r : AgileRatesResponse F) : Type 0 where
    pub payload : J
    pub came : get_with_retry httpx tenacity (agile_request code 96) s ≡ (ok payload, s')
    pub times : ℕ
    pub at_least : 1 ≤ times
    pub at_most : times ≤ 3
    pub sent : s'.sent ≡ s.sent ++ replicate times (agile_request code 96)
    pub validated : validate payload ≡ ok r

  -- The regions were answered in turn, and the rows are those of the answers, in this order, each
  -- with the id of its region.
  abbrev pub Answered : List (ℕ × String) → List (AgilePriceRow F) → Net W → Net W → Type 0
  Answered [] out s s' = (out ≡ []) × (s' ≡ s)
  Answered ((region_id, code) ∷ rest) out s s' =
      (r : AgileRatesResponse F) × (s₁ : Net W) × (tail : List (AgilePriceRow F)) × Answer code s s₁
        r
      × (out ≡ agile_to_rows r region_id ++ tail)
      × Answered rest tail s₁ s'

  one_region :
      (region_id : ℕ) (code : String) (s s' : Net W) (rows : List (AgilePriceRow F))
      → fetch_agile_rates_for_region httpx tenacity validate region_id code 96 s ≡ (ok rows, s')
      → (r : AgileRatesResponse F) × Answer code s s' r × (rows ≡ agile_to_rows r region_id)
  unfolding fetch_agile_rates_for_region
  one_region region_id code s s' rows h =
      let q = agile_request code 96 in
      let (payload, s₁, came, e) = continue-ok (get_with_retry httpx tenacity q s) _ h in
      let (r, validated, k) =
        >>=-eq-ok (validate payload) (λ parsed. ok (agile_to_rows parsed region_id))
          (ap (λ (x : Result (List (AgilePriceRow F)) × Net W). x.0) e) in
      let came' =
        subst (λ n. get_with_retry httpx tenacity q s ≡ (ok payload, n))
          (ap (λ (x : Result (List (AgilePriceRow F)) × Net W). x.1) e) came in
      let a = get_with_retry-Asked httpx tenacity q s in
      (
        r,
        record {
          payload = payload;
          came = came';
          times = a.m;
          at_least = a.at_least;
          at_most = a.at_most;
          sent = sym (ap (λ (x : Result J × Net W). x.1.sent) came') ∙ a.requests;
          validated = validated;
        },
        sym (ok-injective k),
      )

  each-Answered :
      (regions : List (ℕ × String)) (out result : List (AgilePriceRow F)) (s s' : Net W)
      → fetch_each httpx tenacity validate regions 96 out s ≡ (ok result, s')
      → (tail : List (AgilePriceRow F)) × (result ≡ out ++ tail) × Answered regions tail s s'
  unfolding fetch_each
  each-Answered [] out result s s' h = (
    [],
    sym (ok-injective (ap (λ (x : Result (List (AgilePriceRow F)) × Net W). x.0) h))
        ∙ sym (append-nil out),
    (refl, sym (ap (λ (x : Result (List (AgilePriceRow F)) × Net W). x.1) h)),
  )
  each-Answered ((region_id, code) ∷ rest) out result s s' h =
      let (rows, s₁, e, k) =
        continue-ok (fetch_agile_rates_for_region httpx tenacity validate region_id code 96 s)
          (λ rows s'. fetch_each httpx tenacity validate rest 96 (out ++ rows) s') h in
      let (r, a, q) = one_region region_id code s s₁ rows e in
      let (tail, p, t) = each-Answered rest (out ++ rows) result s₁ s' k in
      (rows ++ tail, p ∙ append_assoc out rows tail, (r, s₁, tail, a, ap (λ x. x ++ tail) q, t))

  -- Where the fetch of all regions returns, every region was answered, and the result is the rows
  -- of the answers in the order of the regions, each row with the id of the region it was asked for.
  pub fetch_agile_rates_all_regions-Answered :
      (regions : List (ℕ × String)) (rows : List (AgilePriceRow F)) (s s' : Net W)
      → fetch_agile_rates_all_regions httpx tenacity validate regions 96 s ≡ (ok rows, s')
      → Answered regions rows s s'
  unfolding fetch_agile_rates_all_regions
  fetch_agile_rates_all_regions-Answered regions rows s s' h =
      let (tail, e, t) = each-Answered regions [] rows s s' h in rw e t
