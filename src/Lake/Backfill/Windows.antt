-- ===== src/Lake/Backfill/Windows.antt =====
-- Which windows the backfill asks for, and what it leaves in the Iceberg table.
use Prim.Native.String.{◌++◌ as text_append}
use gridpulse.Prelude.{
  String, ℕ, zero, suc, ◌+◌, ◌-◌, ◌*◌, ◌/◌, ◌≤◌, ◌<◌, ◌≡◌, ◌⊎◌, ◌↔◌, inl, inr, refl, ap, true,
  false, List, [], ◌∷◌, ◌++◌, length, length-append, Result, ok, raise, Exc, Exec, In, In-append,
  In-append_left, In-append_right, ltb, arith, Bool-cases, Option, some, ltb→lt, ltb-false, ◌>>=◌,
}
use mathlib.Core.Path.{subst}
use gridpulse.Datetime.{day_us}
use gridpulse.Contracts.CarbonIntensity.{NationalResponse, CarbonIntensityRow, national_to_rows}
use gridpulse.Ingestion.Http.{Net, Httpx, Tenacity}
use gridpulse.Ingestion.Fetch.{fetch, get}
use gridpulse.Lake.Iceberg.{Iceberg}
use gridpulse.Lake.Backfill.{
  Session, chunk_us, min, append_rows, chunk, turns, fetch_range, backfill,
}

-- The rows of all answers, in order.
abbrev pub concat : List (List CarbonIntensityRow) → List CarbonIntensityRow
concat [] = []
concat (rows ∷ more) = rows ++ concat more

le→ltb : (a b : ℕ) → b ≤ a → ltb a b ≡ false
le→ltb a b h = ground arith

fuel_enough : (start end : ℕ) → end ≤ start + suc ((end - start) / chunk_us) * chunk_us
fuel_enough start end = omega arith

module _ {end : ℕ} where
  min_enough :
      (cursor fuel : ℕ)
      → end ≤ cursor + suc fuel * chunk_us
      → end ≤ min (cursor + chunk_us) end + fuel * chunk_us
  min_enough cursor fuel h = ground (arith, h)

module _ {W : Type 0} (fetch : ℕ → ℕ → Exec (Net W) (List CarbonIntensityRow)) (end : ℕ) where
  -- From `cursor` on, the windows of 14 days, the last one cut off at `end`, were asked for in
  -- turn, and these are the answers; `reached` is the end of the last of the windows.
  abbrev pub Fetched : ℕ → List (List CarbonIntensityRow) → Net W → ℕ → Net W → Type 0
  Fetched cursor [] net reached net' = (reached ≡ cursor) × (net' ≡ net)
  Fetched cursor (rows ∷ more) net reached net' =
      (net₁ : Net W) × (cursor < end)
      × (fetch cursor (min (cursor + 14 * day_us) end) net ≡ (ok rows, net₁))
      × Fetched (min (cursor + 14 * day_us) end) more net₁ reached net'

  -- How a run ends after the answers: it is at the end of the range, and returns their number of
  -- rows; or the next fetch raised; or the table refused what the next fetch brought.
  abbrev pub Stops :
      (lib : Iceberg CarbonIntensityRow)
      → ℕ
      → ℕ
      → Net W
      → Result (Option ℕ) × Session lib.Table W
      → Type 0
  Stops lib counted reached net (r, s') =
      ((end ≤ reached) × (r ≡ ok (some counted)) × (s'.net ≡ net))
      ⊎ ((e : Exc) × (reached < end)
          × (r ≡ raise e)
          × (fetch reached (min (reached + 14 * day_us) end) net ≡ (raise e, s'.net)))
      ⊎ ((e : Exc) × (rows : List CarbonIntensityRow) × (reached < end)
          × (r ≡ raise e)
          × (fetch reached (min (reached + 14 * day_us) end) net ≡ (ok rows, s'.net))
          × (lib.append rows s'.table ≡ raise e))

module _ {W : Type 0} (lib : Iceberg CarbonIntensityRow)
    (fetch : ℕ → ℕ → Exec (Net W) (List CarbonIntensityRow)) (end : ℕ) where
  -- A run of at most `fuel` turns, from `total` rows on.
  pub record Filled (fuel cursor total : ℕ) (s : Session lib.Table W)
      (r : Result (Option ℕ) × Session lib.Table W) : Type 0 where
    pub answers : List (List CarbonIntensityRow)
    pub reached : ℕ
    pub net : Net W
    pub asked : Fetched fetch end cursor answers s.net reached net
    pub short : length answers ≤ fuel
    pub added :
        (x : CarbonIntensityRow)
        → In x (lib.scan r.1.table) ↔ (In x (concat answers) ⊎ In x (lib.scan s.table))
    pub stops : Stops fetch end lib (total + length (concat answers)) reached net r

  append_rows-cases :
      (rows : List CarbonIntensityRow) (t : lib.Table)
      → ((u : lib.Table) × (append_rows lib rows t ≡ ok u)
          × ((x : CarbonIntensityRow) → In x (lib.scan u) ↔ (In x rows ⊎ In x (lib.scan t))))
        ⊎ ((e : Exc) × (append_rows lib rows t ≡ raise e) × (lib.append rows t ≡ raise e))
  append_rows-cases [] t =
      inl (t, refl, λ x. (λ m. inr m, λ m. elim m [ inl k ↦ absurd k | inr k ↦ k ]))
  append_rows-cases (r ∷ rows) t = go (lib.append (r ∷ rows) t) refl
    where
      go :
          (y : Result lib.Table)
          → lib.append (r ∷ rows) t ≡ y
          → ((u : lib.Table) × (lib.append (r ∷ rows) t ≡ ok u)
              × ((x : CarbonIntensityRow)
                  → In x (lib.scan u) ↔ (In x (r ∷ rows) ⊎ In x (lib.scan t))))
            ⊎ ((e : Exc) × (lib.append (r ∷ rows) t ≡ raise e)
                × (lib.append (r ∷ rows) t ≡ raise e))
      go (ok u) e = inl (u, e, lib.append_scan (r ∷ rows) t u e)
      go (raise x) e = inr (x, e, e)

  finished :
      (fuel cursor total : ℕ) (s : Session lib.Table W)
      → end ≤ cursor
      → Filled fuel cursor total s (ok (some total), s)
  finished fuel cursor total s h = record {
    answers = [];
    reached = cursor;
    net = s.net;
    asked = (refl, refl);
    short = omega arith;
    added = λ x. (λ m. inr m, λ m. elim m [ inl k ↦ absurd k | inr k ↦ k ]);
    stops = inl (h, ap (λ n. ok (some n)) (omega arith), refl);
  }

  refused :
      (fuel cursor total : ℕ) (s : Session lib.Table W) (net : Net W) (e : Exc)
      → cursor < end
      → (fetch cursor (min (cursor + 14 * day_us) end) s.net ≡ (raise e, net))
        ⊎ ((rows : List CarbonIntensityRow) × (fetch cursor (min (cursor + 14 * day_us) end) s.net
              ≡ (ok rows, net))
            × (lib.append rows s.table ≡ raise e))
      → Filled fuel cursor total s (raise e, record s { net = net })
  refused fuel cursor total s net e more why = record {
    answers = [];
    reached = cursor;
    net = s.net;
    asked = (refl, refl);
    short = omega arith;
    added = λ x. (λ m. inr m, λ m. elim m [ inl k ↦ absurd k | inr k ↦ k ]);
    stops = inr (elim why [
      | inl f ↦ inl (e, more, refl, f)
      | inr (rows, f, g) ↦ inr (e, rows, more, refl, f, g)
    ]);
  }

  extended :
      (fuel cursor total : ℕ) (s : Session lib.Table W) (rows : List CarbonIntensityRow)
      (net : Net W) (u : lib.Table) (r : Result (Option ℕ) × Session lib.Table W)
      → cursor < end
      → fetch cursor (min (cursor + 14 * day_us) end) s.net ≡ (ok rows, net)
      → ((x : CarbonIntensityRow) → In x (lib.scan u) ↔ (In x rows ⊎ In x (lib.scan s.table)))
      → Filled fuel
          (min (cursor + chunk_us) end)
          (total + length rows)
          (record { table = u; net = net })
          r
      → Filled (suc fuel) cursor total s r
  extended fuel cursor total s rows net u r more f scanned rest = record {
    answers = rows ∷ rest.answers;
    reached = rest.reached;
    net = rest.net;
    asked = (net, more, f, rest.asked);
    short = omega (arith, rest.short);
    added = λ x. (
      λ m. elim ((rest.added x).0 m) [
        | inl k ↦ inl (In-append_right x rows (concat rest.answers) k)
        | inr k ↦ elim ((scanned x).0 k) [
          | inl l ↦ inl (In-append_left x rows (concat rest.answers) l)
          | inr l ↦ inr l
        ]
      ],
      λ m. elim m [
        | inl k ↦ elim (In-append x rows (concat rest.answers) k) [
          | inl l ↦ (rest.added x).1 (inr ((scanned x).1 (inl l)))
          | inr l ↦ (rest.added x).1 (inl l)
        ]
        | inr k ↦ (rest.added x).1 (inr ((scanned x).1 (inr k)))
      ],
    );
    stops =
        subst (λ n. Stops fetch end lib n rest.reached rest.net r)
          (omega (arith, length-append rows (concat rest.answers))) rest.stops;
  }

  -- one turn, by what the fetch brings
  turn :
      (fuel cursor total : ℕ) (s : Session lib.Table W)
      (x : Result (List CarbonIntensityRow) × Net W)
      → ltb cursor end ≡ true
      → fetch cursor (min (cursor + chunk_us) end) s.net ≡ x
      → ((counted : ℕ) (s₁ : Session lib.Table W)
          → Filled fuel
              (min (cursor + chunk_us) end)
              counted
              s₁
              (turns lib fetch fuel (min (cursor + chunk_us) end) end counted s₁))
      → Filled (suc fuel) cursor total s (turns lib fetch (suc fuel) cursor end total s)
  unfolding turns chunk
  turn fuel cursor total s (raise e, net) more f rest =
      rw (more, f) (refused (suc fuel) cursor total s net e (ltb→lt _ _ more) (inl f))
  turn fuel cursor total s (ok rows, net) more f rest = elim (append_rows-cases rows s.table) [
    | inl (u, g, scanned) ↦
        rw (more, f, g)
          (extended fuel cursor total s rows net u _ (ltb→lt _ _ more) f scanned
            (rest (total + length rows) (record { table = u; net = net })))
    | inr (e, g, h) ↦
        rw (more, f, g)
          (refused (suc fuel) cursor total s net e (ltb→lt _ _ more) (inr (rows, f, h)))
  ]

  filled :
      (fuel cursor total : ℕ) (s : Session lib.Table W)
      → end ≤ cursor + fuel * chunk_us
      → Filled fuel cursor total s (turns lib fetch fuel cursor end total s)
  unfolding turns
  filled zero cursor total s h =
      rw (le→ltb cursor end (omega (arith, h))) (finished zero cursor total s (omega (arith, h)))
  filled (suc fuel) cursor total s h = elim (Bool-cases (ltb cursor end)) [
    | inl more ↦
        turn fuel cursor total s (fetch cursor (min (cursor + chunk_us) end) s.net) more refl
          (λ counted s₁.
            filled fuel (min (cursor + chunk_us) end) counted s₁ (min_enough cursor fuel h))
    | inr done ↦ rw done (finished (suc fuel) cursor total s (ltb-false _ _ done))
  ]

module _ {J W : Type 0} (httpx : Httpx J W) (tenacity : Tenacity W)
    (validate : J → Result NationalResponse) (iso : ℕ → String)
    (lib : Iceberg CarbonIntensityRow) where
  -- What a window is asked for with: the period from `a` to `b` in minutes, validated.
  abbrev pub window : ℕ → ℕ → Exec (Net W) (List CarbonIntensityRow)
  window a b =
      fetch httpx tenacity
        (get "https://api.carbonintensity.org.uk"
          (text_append "/intensity/" (text_append (iso a) (text_append "/" (iso b)))) [])
        λ payload. do parsed ← validate payload; ok (national_to_rows parsed)

  -- The backfill of [start, end), two dates, ends within one turn for each 14 days begun, whatever
  -- the service answers and the table accepts. It asks for the windows of 14 days from `start` on,
  -- in turn, by their two ends, the last one cut off at `end`, until a fetch raises or the table refuses the rows that
  -- one brought. The table then has what it had and exactly the rows of the answers before that;
  -- the run raises what was raised, or is at `end` and returns the number of these rows.
  pub backfill_fills :
      (start end : ℕ) (s : Session lib.Table W)
      → Filled lib window end
          (suc ((end - start) / (14 * day_us)))
          start
          0
          s
          (backfill httpx tenacity validate iso lib start end s)
  unfolding backfill fetch_range
  backfill_fills start end s =
      filled lib window end (suc ((end - start) / chunk_us)) start 0 s (fuel_enough start end)
