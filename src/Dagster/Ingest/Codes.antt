-- ===== src/Dagster/Ingest/Codes.antt =====
-- What a run of an asset goes through, and which codes the Agile asset asks for.
use gridpulse.Prelude.{
  ℕ, ◌≡◌, refl, ap, sym, ◌∙◌, String, Option, some, none, List, Result, ok, raise, Exec,
  ok-injective, ok-ne-raise, Bool-cases, inl, inr, ◌⊎◌,
}
use mathlib.Core.Path.{subst}
use gridpulse.Ingestion.Http.{Net}
use gridpulse.Ingestion.Fetch.Rows.{continue-ok}
use gridpulse.Storage.Pool.{Process, get_pool}
use gridpulse.Storage.Postgres.{key_eq, Db, Driver, DnoRegion}
use gridpulse.Storage.Postgres.Atomic.{db-get_pool}
use gridpulse.Api.Sql.{order_by}
use gridpulse.Api.Marts.{octopus_codes, dno_regions_with_octopus_code}
use gridpulse.Dagster.Metadata.{Metadata}
use gridpulse.Dagster.Ingest.{
  World, on_net, on_process, ingest, read_regions, codes_from, region_codes,
}

module _ {W P F R : Type 0} where
  -- What a run of fetch, upsert and report went through, if it returned.
  pub record Ingested {Row : Type 0} (fetch : Exec (Net W) (List Row))
      (upsert : List Row → Exec (Process P (Db R)) ℕ) (report : ℕ → List Row → Result (Metadata F))
      (s s' : World W P R) (md : Metadata F) : Type 0 where
    pub rows : List Row
    pub written : ℕ
    pub fetched : fetch s.net ≡ (ok rows, s'.net)
    pub upserted : upsert rows s.process ≡ (ok written, s'.process)
    pub reported : report written rows ≡ ok md

  pub ingest-Ingested :
      {Row : Type 0} (fetch : Exec (Net W) (List Row))
      (upsert : List Row → Exec (Process P (Db R)) ℕ) (report : ℕ → List Row → Result (Metadata F))
      (s s' : World W P R) (md : Metadata F)
      → ingest fetch upsert report s ≡ (ok md, s')
      → Ingested fetch upsert report s s' md × (s'.regions ≡ s.regions)
  unfolding ingest
  ingest-Ingested {Row = Row} fetch upsert report s s' md h =
      let (rows, s₁, e, k) = continue-ok (on_net fetch s) _ h in
      let (n, s₂, e', k') = continue-ok (on_process (upsert rows) s₁) _ k in
      let end : s₂ ≡ s' = ap (λ (x : Result (Metadata F) × World W P R). x.1) k' in
      let net : s₁.net ≡ s'.net =
        ap (λ (x : Result ℕ × World W P R). x.1.net) e' ∙ ap (λ (w : World W P R). w.net) end in
      let process : s₁.process ≡ s.process =
        sym (ap (λ (x : Result (List Row) × World W P R). x.1.process) e) in
      (
        record {
          rows = rows;
          written = n;
          fetched =
              ap (λ (x : Result (List Row) × World W P R). (x.0, x.1.net)) e
              ∙ ap (λ (m : Net W). (ok rows, m)) net;
          upserted =
              ap (upsert rows) (sym process)
              ∙ (ap (λ (x : Result ℕ × World W P R). (x.0, x.1.process)) e'
                  ∙ ap (λ (w : World W P R). (ok n, w.process)) end);
          reported = ap (λ (x : Result (Metadata F) × World W P R). x.0) k';
        },
        sym (
            ap (λ (x : Result (List Row) × World W P R). x.1.regions) e
            ∙ (ap (λ (x : Result ℕ × World W P R). x.1.regions) e'
                ∙ ap (λ (w : World W P R). w.regions) end)),
      )

module _ {P F R : Type 0} (driver : Driver P F R) (environ : String → Option String)
    (new_pool : String → Result P) where
  open driver use {connection, available, commits, refuses}

  reads_only :
      (p : P) (d d' : Db R) (regions : List DnoRegion)
      → connection p (λ x. ok (x.dno_region, x)) d ≡ (ok regions, d')
      → (regions ≡ d.dno_region) × (d' ≡ d)
  reads_only p d d' regions h = elim (Bool-cases (available p d)) [
    | inl open_ ↦
        let done = sym (commits p (λ x. ok (x.dno_region, x)) d d d.dno_region open_ refl) ∙ h in
        (sym (ok-injective (ap (λ x. x.0) done)), sym (ap (λ x. x.1) done))
    | inr closed ↦
        let (e, refused) = refuses p (λ x. ok (x.dno_region, x)) d closed in
        absurd (ok-ne-raise (ap (λ x. x.0) (sym h ∙ refused)))
  ]

  read_regions-ok :
      (s s' : Process P (Db R)) (regions : List DnoRegion)
      → read_regions driver environ new_pool s ≡ (ok regions, s')
      → (regions ≡ s.db.dno_region) × (s'.db ≡ s.db)
  unfolding read_regions
  read_regions-ok s s' regions h =
      let (p, s₁, got, e) = continue-ok (get_pool environ new_pool s) _ h in
      let (read, same) =
        reads_only p s₁.db s'.db regions
          (ap (λ (x : Result (List DnoRegion) × Process P (Db R)). (x.0, x.1.db)) e) in
      let kept : s₁.db ≡ s.db =
        sym (ap (λ (x : Result P × Process P (Db R)). x.1.db) got)
        ∙ db-get_pool environ new_pool s in
      (read ∙ ap (λ (x : Db R). x.dno_region) kept, same ∙ kept)

  -- The codes are those that are kept, or else those of the table; the database is only read.
  abbrev pub AreCodes : {W : Type 0} → World W P R → List (ℕ × String) → Type 0
  AreCodes s pairs =
      (s.regions ≡ some pairs)
      ⊎ (pairs ≡ octopus_codes (order_by (λ r. r.region_id) s.process.db.dno_region))

  abbrev Looked : {W : Type 0} → World W P R → Result (List (ℕ × String)) × World W P R → Type 0
  Looked s (ok pairs, s') = AreCodes s pairs × (s'.process.db ≡ s.process.db) × (s'.net ≡ s.net)
  Looked s (raise e, s') = Unit {0}

  codes_from-Looked :
      {W : Type 0} (kept : Option (List (ℕ × String))) (s : World W P R)
      → s.regions ≡ kept
      → Looked s (codes_from driver environ new_pool kept s)
  unfolding dno_regions_with_octopus_code
  codes_from-Looked (some pairs) s h = (inl h, refl, refl)
  codes_from-Looked none s h = go (read_regions driver environ new_pool s.process) refl
    where
      go :
          (x : Result (List DnoRegion) × Process P (Db R))
          → read_regions driver environ new_pool s.process ≡ x
          → let (r, kept) = dno_regions_with_octopus_code x.0 none in
            Looked s (r, record s { process = x.1; regions = kept })
      go (ok regions, p) e =
          let (read, same) = read_regions-ok s.process p regions e in
          (inr (ap (λ rs. octopus_codes (order_by (λ r. r.region_id) rs)) read), same, refl)
      go (raise e, p) q = tt

  pub region_codes-ok :
      {W : Type 0} (s s' : World W P R) (pairs : List (ℕ × String))
      → region_codes driver environ new_pool s ≡ (ok pairs, s')
      → AreCodes s pairs × (s'.process.db ≡ s.process.db) × (s'.net ≡ s.net)
  region_codes-ok s s' pairs h = subst (Looked s) h (codes_from-Looked s.regions s refl)
