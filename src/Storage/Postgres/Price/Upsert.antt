-- ===== src/Storage/Postgres/Price/Upsert.antt =====
-- What `upsert_agile_price_rows` promises.
use gridpulse.Prelude.{
  ℕ, String, ◌≡◌, ◌≤◌, ◌<◌, refl, ap, ap₂, sym, ◌∙◌, true, Option, List, [], ◌∷◌, map, Result, ok,
  length, length-map, All, ltb→lt, leb→le, guards-ok, &&-true,
}
use mathlib.Core.Path.{subst}
use gridpulse.Contracts.Octopus.{AgilePriceRow}
use gridpulse.Storage.Keyed.{find, upsert, IsKeyed, All-upsert, upsert-IsKeyed}
use gridpulse.Storage.Keyed.Batch.{run, run-keeps}
use gridpulse.Storage.Keyed.Latest.{last_for, replaced, find-run}
use gridpulse.Storage.Pool.{Process}
use gridpulse.Storage.Postgres.{Key, key_eq, Db, Driver, DnoRegion, PriceRecord}
use gridpulse.Storage.Postgres.Atomic.{write_rows-run}
use gridpulse.Storage.Postgres.Carbon.{has_region}
use gridpulse.Storage.Postgres.Price.{
  Values, payload, key, fresh, update, fits, allowed, statement, upsert_agile_price_rows,
}

module _ {R : Type 0} where
  -- The columns of the key agree with it.
  abbrev pub Agrees : Key → PriceRecord R → Type 0
  Agrees k r = (r.region_id ≡ k.0) × (r.period_start_utc ≡ k.1)

  -- A row under its key, with the constraints of the table.
  abbrev pub RowIsSound : List DnoRegion → Key → PriceRecord R → Type 0
  RowIsSound regions k r =
      Agrees k r
      × (r.period_start_utc < r.period_end_utc)
      × (1 ≤ r.region_id)
      × (r.region_id ≤ 14)
      × (has_region k.0 regions ≡ true)

  -- The primary key and the constraints of raw.agile_price.
  pub record PricesAreSound (d : Db R) : Type 0 where
    pub keyed : IsKeyed d.agile_price
    pub rows : All (λ x. RowIsSound d.dno_region x.0 x.1) d.agile_price

  -- The tables but raw.agile_price are the same.
  pub record SameButPrices (d d' : Db R) : Type 0 where
    pub dno_region : d'.dno_region ≡ d.dno_region
    pub carbon_intensity : d'.carbon_intensity ≡ d.carbon_intensity
    pub generation_mix : d'.generation_mix ≡ d.generation_mix

  All-Agrees :
      (regions : List DnoRegion) (t : List (Key × PriceRecord R))
      → All (λ x. RowIsSound regions x.0 x.1) t
      → All (λ x. Agrees x.0 x.1) t
  All-Agrees regions [] h = tt
  All-Agrees regions (x ∷ t) h = (h.0.0, All-Agrees regions t h.1)

module _ {P F R : Type 0} (driver : Driver P F R) (now : ℕ) where
  open driver use {timestamptz}

  abbrev upsert_one : Values F → List (Key × PriceRecord R) → List (Key × PriceRecord R)
  upsert_one v = upsert (key driver now v) (fresh driver now v) (update driver now v)

  statement-ok :
      (v : Values F) (d d' : Db R)
      → statement driver now v d ≡ ok d'
      → (d' ≡ record d { agile_price = upsert_one v d.agile_price })
        × (timestamptz v.1 < timestamptz v.2)
        × (1 ≤ v.0)
        × (v.0 ≤ 14)
        × (has_region v.0 d.dno_region ≡ true)
  unfolding statement
  statement-ok v d d' h =
      let (_, checked, e) = guards-ok (fits driver now v) (allowed driver now v d) _ _ h in
      let (first, known) = &&-true _ _ checked in
      let (ordered, ids) = &&-true _ _ first in
      let (low, high) = &&-true _ _ ids in
      (sym e, ltb→lt _ _ ordered, leb→le _ _ low, leb→le _ _ high, known)

  fresh-Agrees : (v : Values F) → Agrees (key driver now v) (fresh driver now v)
  unfolding fresh
  fresh-Agrees v = (refl, refl)

  update-fresh :
      (v : Values F) (r : PriceRecord R)
      → Agrees (key driver now v) r
      → update driver now v r ≡ fresh driver now v
  unfolding fresh update
  update-fresh v r h =
      ap₂ (λ i start. record (update driver now v r) { region_id = i; period_start_utc = start })
        h.0 h.1

  statement-SameButPrices :
      (v : Values F) (d d' : Db R) → statement driver now v d ≡ ok d' → SameButPrices d d'
  statement-SameButPrices v d d' h =
      subst (SameButPrices d) (sym (statement-ok v d d' h).0)
        (record { dno_region = refl; carbon_intensity = refl; generation_mix = refl })

  statement-PricesAreSound :
      (v : Values F) (d d' : Db R)
      → statement driver now v d ≡ ok d'
      → PricesAreSound d
      → PricesAreSound d'
  unfolding fresh update
  statement-PricesAreSound v d d' h s =
      let (e, ordered, low, high, known) = statement-ok v d d' h in
      subst PricesAreSound (sym e) (record {
        keyed = upsert-IsKeyed _ _ _ d.agile_price s.keyed;
        rows =
            All-upsert (RowIsSound d.dno_region) _ _ _ d.agile_price
              ((refl, refl), ordered, low, high, known)
              (λ r q. (q.0, rw q.0.1 ordered, q.2, q.3, known)) s.rows;
      })

  run-SameButPrices :
      (vs : List (Values F)) (d d' : Db R)
      → run (statement driver now) vs d ≡ ok d'
      → SameButPrices d d'
  run-SameButPrices =
      run-keeps SameButPrices (statement driver now)
        (λ d. record { dno_region = refl; carbon_intensity = refl; generation_mix = refl })
        (λ a b c p q. record {
          dno_region = q.dno_region ∙ p.dno_region;
          carbon_intensity = q.carbon_intensity ∙ p.carbon_intensity;
          generation_mix = q.generation_mix ∙ p.generation_mix;
        })
        statement-SameButPrices

  run-PricesAreSound :
      (vs : List (Values F)) (d d' : Db R)
      → run (statement driver now) vs d ≡ ok d'
      → PricesAreSound d
      → PricesAreSound d'
  run-PricesAreSound =
      run-keeps (λ a b. PricesAreSound a → PricesAreSound b) (statement driver now) (λ d s. s)
        (λ a b c p q s. q (p s)) statement-PricesAreSound

  module _ (environ : String → Option String) (new_pool : String → Result P) where
    -- From a table that meets its key and constraints, an upsert of prices that returns has written
    -- every row and nothing else: it returns the number of rows, the other tables are the same, at
    -- each key stands the last row for it, a key that no row has is unchanged, and the table still
    -- meets its key and constraints (regions 1 to 14 among them).
    pub upsert_agile_settles :
        (rows : List (AgilePriceRow F)) (s s' : Process P (Db R)) (n : ℕ)
        → PricesAreSound s.db
        → upsert_agile_price_rows driver now environ new_pool rows s ≡ (ok n, s')
        → (n ≡ length rows)
          × SameButPrices s.db s'.db
          × PricesAreSound s'.db
          × ((k : Key)
              → find k s'.db.agile_price
                ≡ replaced
                    (fresh driver now)
                    (last_for (key driver now) k (map payload rows))
                    (find k s.db.agile_price))
    unfolding upsert_agile_price_rows
    upsert_agile_settles rows s s' n sound h =
        let vs = map payload rows in
        let (e, ran) = write_rows-run driver (statement driver now) environ new_pool vs s s' n h in
        (
          e ∙ length-map rows payload,
          run-SameButPrices vs s.db s'.db ran,
          run-PricesAreSound vs s.db s'.db ran sound,
          find-run (key driver now) (fresh driver now) (update driver now) Agrees fresh-Agrees
              update-fresh (λ (x : Db R). x.agile_price) (statement driver now)
              (λ v a b q. ap (λ (x : Db R). x.agile_price) (statement-ok v a b q).0) vs s.db s'.db
              (All-Agrees s.db.dno_region s.db.agile_price sound.rows) ran,
        )
