-- ===== src/Storage/Postgres/Carbon/Settled.antt =====
-- What a batch of upserts makes of one row of raw.carbon_intensity.
use gridpulse.Prelude.{
  ℕ, ℤ, ◌≡◌, ◌≢◌, refl, sym, ◌∙◌, Bool, true, false, Option, none, some, List, [], ◌∷◌, arith,
  if◌then◌else◌,
}
use gridpulse.Storage.Keyed.{merged}
use gridpulse.Storage.Keyed.Batch.{row_after}
use gridpulse.Storage.Postgres.{Key, key_eq, Driver, CarbonRecord}
use gridpulse.Storage.Postgres.Carbon.{Values, coalesce, key, fresh, update}

coalesce-none : {A : Type 0} (o : Option A) → coalesce o none ≡ o
coalesce-none none = refl
coalesce-none (some a) = refl

coalesce_assoc :
    {A : Type 0} (a b c : Option A) → coalesce (coalesce a b) c ≡ coalesce a (coalesce b c)
coalesce_assoc none b c = refl
coalesce_assoc (some x) b c = refl

coalesce-ne-none : {A : Type 0} (o : Option A) (a : A) → coalesce o (some a) ≢ none
coalesce-ne-none none a h = cc
coalesce-ne-none (some b) a h = cc

abbrev pub actual_of : Option CarbonRecord → Option ℤ
actual_of none = none
actual_of (some r) = r.actual_gco2_per_kwh

-- The columns of the key agree with it.
abbrev pub KeyAgrees : Key → Option CarbonRecord → Type 0
KeyAgrees k none = Unit {0}
KeyAgrees k (some r) = (r.region_id ≡ k.0) × (r.period_start_utc ≡ k.1)

module _ {P F R : Type 0} (driver : Driver P F R) where
  open driver use {timestamptz}

  abbrev at_key : Key → Values → Bool
  at_key k v = key_eq.beq (v.0, timestamptz v.1) k

  -- The last tuple of the batch for a key.
  unfoldable pub last_at : Key → List Values → Option Values
  last_at k [] = none
  last_at k (v ∷ vs) = coalesce (last_at k vs) (if at_key k v then some v else none)

  -- The last realised value in the batch for a key.
  unfoldable pub last_actual : Key → List Values → Option ℤ
  last_actual k [] = none
  last_actual k (v ∷ vs) = coalesce (last_actual k vs) (if at_key k v then v.4 else none)

  last_actual-none : (k : Key) (vs : List Values) → last_at k vs ≡ none → last_actual k vs ≡ none
  unfolding last_at last_actual
  last_actual-none k [] h = refl
  last_actual-none k (v ∷ vs) h = go (last_actual-none k vs) (at_key k v) h
    where
      go :
          (last_at k vs ≡ none → last_actual k vs ≡ none)
          → (b : Bool) → coalesce (last_at k vs) (if b then some v else none) ≡ none
          → coalesce (last_actual k vs) (if b then v.4 else none) ≡ none
      go ih true e = absurd (coalesce-ne-none (last_at k vs) v e)
      go ih false e = coalesce-none (last_actual k vs) ∙ ih (sym (coalesce-none (last_at k vs)) ∙ e)

  module _ (now : ℕ) where
    -- The row of a key after a batch: the last tuple for it, with the last realised value of the
    -- batch, or else the one that was stored. A key that the batch does not name keeps its row.
    abbrev pub settled : Key → Option Values → Option ℤ → Option CarbonRecord → Option CarbonRecord
    settled k none actual old = old
    settled k (some v) actual old = some (record {
      region_id = k.0;
      period_start_utc = k.1;
      period_end_utc = timestamptz v.2;
      forecast_gco2_per_kwh = v.3;
      actual_gco2_per_kwh = coalesce actual (actual_of old);
      intensity_index = v.5;
      ingested_at_utc = now;
    })

    merged_agrees :
        (k : Key) (v : Values) (old : Option CarbonRecord)
        → KeyAgrees k old
        → at_key k v ≡ true
        → KeyAgrees k (some (merged (fresh driver now v) (update driver now v) old))
    unfolding fresh update
    merged_agrees k v none h e = ground arith
    merged_agrees k v (some r) h e = h

    -- one more tuple for the key, before the rest of the batch
    settled_hit :
        (k : Key) (v : Values) (old : Option CarbonRecord)
        → KeyAgrees k old
        → at_key k v ≡ true
        → (last : Option Values) (actual : Option ℤ) → (last ≡ none → actual ≡ none)
        → settled k last actual (some (merged (fresh driver now v) (update driver now v) old))
          ≡ settled k (coalesce last (some v)) (coalesce actual v.4) old
    unfolding fresh update
    settled_hit k v none h e none actual q = rw q (ground arith)
    settled_hit k v none h e (some w) (some a) q = refl
    settled_hit k v none h e (some w) none q = rw coalesce-none
    settled_hit k v (some r) h e none actual q = rw (q refl) (ground arith)
    settled_hit k v (some r) h e (some w) actual q = rw coalesce_assoc

    pub row_after-settled :
        (k : Key) (vs : List Values) (old : Option CarbonRecord)
        → KeyAgrees k old
        → row_after (key driver now) (fresh driver now) (update driver now) k vs old
          ≡ settled k (last_at k vs) (last_actual k vs) old
    unfolding row_after last_at last_actual
    row_after-settled k [] old h = refl
    row_after-settled k (v ∷ vs) old h = go (at_key k v) refl (row_after-settled k vs)
      where
        go :
            (b : Bool)
            → at_key k v ≡ b
            → ((o : Option CarbonRecord)
                → KeyAgrees k o
                → row_after (key driver now) (fresh driver now) (update driver now) k vs o
                  ≡ settled k (last_at k vs) (last_actual k vs) o)
            → row_after
                (key driver now)
                (fresh driver now)
                (update driver now)
                k
                vs
                (if b then some (merged (fresh driver now v) (update driver now v) old) else old)
              ≡ settled k
                  (coalesce (last_at k vs) (if b then some v else none))
                  (coalesce (last_actual k vs) (if b then v.4 else none))
                  old
        go true e ih =
            ih (some (merged (fresh driver now v) (update driver now v) old))
              (merged_agrees k v old h e)
            ∙ settled_hit k v old h e (last_at k vs) (last_actual k vs) (last_actual-none k vs)
        go false e ih =
            rw (coalesce-none (last_at k vs), coalesce-none (last_actual k vs)) (ih old h)
