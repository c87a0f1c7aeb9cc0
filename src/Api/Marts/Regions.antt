-- ===== src/Api/Marts/Regions.antt =====
-- What the region lookup of gridpulse/lib/regions.py returns, and what it keeps.
use gridpulse.Prelude.{
  ℕ, ◌≡◌, ◌⊎◌, ◌↔◌, inl, inr, refl, ap, ◌∙◌, String, Option, none, some, List, [], ◌∷◌, Result, ok,
  raise, Exc, In,
}
use gridpulse.Api.Sql.{order_by, In-order_by, In-order_by_of}
use gridpulse.Api.Marts.{dno_regions_with_octopus_code, octopus_codes, with_code}
use gridpulse.Storage.Postgres.{DnoRegion}

-- The region that a pair was made of.
pub record IsRegion (regions : List DnoRegion) (pair : ℕ × String) : Type 0 where
  pub region : DnoRegion
  pub in_table : In region regions
  pub same_id : region.region_id ≡ pair.0
  pub same_code : region.octopus_code ≡ some pair.1

older : (r : DnoRegion) (rs : List DnoRegion) (p : ℕ × String) → IsRegion rs p → IsRegion (r ∷ rs) p
older r rs p h = record {
  region = h.region;
  in_table = inr h.in_table;
  same_id = h.same_id;
  same_code = h.same_code;
}

octopus_codes-In : (rs : List DnoRegion) (p : ℕ × String) → In p (octopus_codes rs) → IsRegion rs p
unfolding octopus_codes
octopus_codes-In [] p m = absurd m
octopus_codes-In (r ∷ rs) p m = go (octopus_codes-In rs p) r.octopus_code refl m
  where
    go :
        (In p (octopus_codes rs) → IsRegion rs p)
        → (code : Option String) → r.octopus_code ≡ code
        → In p (with_code r code (octopus_codes rs))
        → IsRegion (r ∷ rs) p
    go ih none e k = older r rs p (ih k)
    go ih (some code) e (inl same) = record {
      region = r;
      in_table = inl refl;
      same_id = ap (λ x. x.0) same;
      same_code = e ∙ ap (λ x. some x.1) same;
    }
    go ih (some code) e (inr k) = older r rs p (ih k)

kept-In :
    (r : DnoRegion) (code : Option String) (rest : List (ℕ × String)) (p : ℕ × String)
    → In p rest
    → In p (with_code r code rest)
kept-In r none rest p m = m
kept-In r (some code) rest p m = inr m

octopus_codes-In_of :
    (rs : List DnoRegion) (p : ℕ × String) (r : DnoRegion)
    → In r rs
    → r.region_id ≡ p.0
    → r.octopus_code ≡ some p.1
    → In p (octopus_codes rs)
unfolding octopus_codes
octopus_codes-In_of [] p r m i c = absurd m
octopus_codes-In_of (x ∷ rs) p r (inl e) i c =
    rw (ap (λ y. y.octopus_code) e ∙ c) (inl (ap (λ n. (n, p.1)) (ap (λ y. y.region_id) e ∙ i)))
octopus_codes-In_of (x ∷ rs) p r (inr m) i c =
    kept-In x x.octopus_code (octopus_codes rs) p (octopus_codes-In_of rs p r m i c)

-- The first lookup of a process either raises what the connection raises and keeps nothing, or
-- returns the pairs of exactly those regions of the table that have an Octopus code. What it
-- returned, every later lookup returns, whatever the database then holds and whether or not it can
-- be reached.
pub dno_regions_with_octopus_code-IsRegion :
    (connection : Result (List DnoRegion))
    → ((e : Exc) × (connection ≡ raise e)
        × (dno_regions_with_octopus_code connection none ≡ (raise e, none)))
      ⊎ ((regions : List DnoRegion) × (pairs : List (ℕ × String)) × (connection ≡ ok regions)
          × (dno_regions_with_octopus_code connection none ≡ (ok pairs, some pairs))
          × ((p : ℕ × String) → In p pairs ↔ IsRegion regions p)
          × ((later : Result (List DnoRegion))
              → dno_regions_with_octopus_code later (some pairs) ≡ (ok pairs, some pairs)))
unfolding dno_regions_with_octopus_code
dno_regions_with_octopus_code-IsRegion (raise e) = inl (e, refl, refl)
dno_regions_with_octopus_code-IsRegion (ok regions) =
    let sorted = order_by (λ (r : DnoRegion). r.region_id) regions in
    inr (
      regions,
      octopus_codes sorted,
      refl,
      refl,
      λ p. (
        λ m.
            let h = octopus_codes-In sorted p m in
            record {
              region = h.region;
              in_table = In-order_by (λ r. r.region_id) h.region regions h.in_table;
              same_id = h.same_id;
              same_code = h.same_code;
            },
        λ h.
            octopus_codes-In_of sorted p h.region
              (In-order_by_of (λ r. r.region_id) h.region regions h.in_table) h.same_id h.same_code,
      ),
      λ later. refl,
    )
