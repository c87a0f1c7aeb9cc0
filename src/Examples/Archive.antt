-- ===== src/Examples/Archive.antt =====
-- The Iceberg catalog, and what the upserts leave for the archive, at concrete inputs.
use gridpulse.Prelude.{
  String, ◌≡◌, refl, ap, Bool, true, false, some, none, List, [], ◌∷◌, length, Result, ok, raise,
  Exec, namespace_exists, table_exists, eq_iff, str_eq, ◌||◌, pos,
}
use gridpulse.Storage.Postgres.Carbon
use gridpulse.Storage.Postgres.Mix
use gridpulse.Storage.Postgres.Price
use gridpulse.Storage.Postgres.{key_eq}
use gridpulse.Lake.Schemas.{tables}
use gridpulse.Lake.Schemas.Archivable.Written.{IsArchivable, upserts-IsArchivable}
use gridpulse.Lake.Catalog.{
  CatalogProcess, get_catalog, Catalogs, catalog_properties, r2_warehouse_uri, init, create_all,
  create_each,
}
use gridpulse.Lake.Catalog.Created.{is_one_of, missing}
use gridpulse.Lake.Catalog.Init.{init_idempotent}
use gridpulse.Examples.Memory.{memory, environ, new_pool, half_hour, empty_process}
use gridpulse.Examples.Prices.{prices, mixes}

-- A store has the names of its namespaces, and those of its tables.
abbrev Store : Type 0
Store = List String × List String

unfoldable listed : String → List String → Bool
listed name [] = false
listed name (x ∷ xs) = str_eq x name || listed name xs

abbrev created_in : Bool → Store → Store → Result (Unit {0}) × Store
created_in true there new = (raise namespace_exists, there)
created_in false there new = (ok tt, new)

abbrev table_in : Bool → Store → Store → Result (Unit {0}) × Store
table_in true there new = (raise table_exists, there)
table_in false there new = (ok tt, new)

listed-cons : (name : String) (xs : List String) → listed name (name ∷ xs) ≡ true
unfolding listed
listed-cons name xs = rw ((eq_iff name name).1 refl) refl

refused_in : (b : Bool) (s t u : Store) → created_in b s t ≡ (raise namespace_exists, u) → b ≡ true
refused_in true s t u h = refl
refused_in false s t u h = cc (ap (λ x. x.0) h)

refused_table_in : (b : Bool) (s t u : Store) → table_in b s t ≡ (raise table_exists, u) → b ≡ true
refused_table_in true s t u h = refl
refused_table_in false s t u h = cc (ap (λ x. x.0) h)

made_in : (b : Bool) (s t u : Store) → created_in b s t ≡ (ok tt, u) → t ≡ u
made_in true s t u h = cc (ap (λ x. x.0) h)
made_in false s t u h = ap (λ x. x.1) h

made_table_in : (b : Bool) (s t u : Store) → table_in b s t ≡ (ok tt, u) → t ≡ u
made_table_in true s t u h = cc (ap (λ x. x.0) h)
made_table_in false s t u h = ap (λ x. x.1) h

unfoldable in_store : Catalogs (Unit {0}) Store
unfolding listed
in_store = record {
  create_namespace = λ h name s. created_in (listed name s.0) s (name ∷ s.0, s.1);
  create_table = λ h name schema spec s. table_in (listed name s.1) s (s.0, name ∷ s.1);
  has_namespace = λ h s name. listed name s.0;
  has_table = λ h s name. listed name s.1;
  refuses_namespace = λ h name w e. rw e refl;
  refused_namespace = λ h name w w' e. refused_in _ _ _ _ e;
  adds_namespace = λ h name w w' e.
      let made = made_in _ _ _ _ e in (rw (← made) (listed-cons name w.0), λ t. rw (← made) refl);
  refuses_table = λ h name schema spec w e. rw e refl;
  refused_table = λ h name schema spec w w' e. refused_table_in _ _ _ _ e;
  adds_table = λ h name schema spec w w' e.
      let made = made_table_in _ _ _ _ e in (λ t. rw (← made) refl, λ n. rw (← made) refl);
}

abbrev sql_catalog : String → List (String × String) → Exec Store (Unit {0})
sql_catalog name given s = (ok tt, s)

-- One table is there already.
abbrev opening : CatalogProcess (Unit {0}) Store
opening = record { catalog = none; store = ([], "gridpulse.agile_price" ∷ []) }

abbrev initialised : CatalogProcess (Unit {0}) Store
initialised = (init in_store environ sql_catalog opening).1

creates_two : init in_store environ sql_catalog opening ≡ (ok 2, initialised)
unfolding init get_catalog catalog_properties r2_warehouse_uri create_all create_each tables
    in_store listed
creates_two = refl

init_idempotent_example :
    (h : Unit {0}) × (w : Store) × (initialised.catalog ≡ some h)
    × (get_catalog environ sql_catalog opening ≡ (ok h, record { catalog = some h; store = w }))
    × (2 ≡ length (missing in_store h w tables))
    × ((name : String)
        → in_store.has_table h initialised.store name
          ≡ (is_one_of name tables || in_store.has_table h w name))
    × (init in_store environ sql_catalog initialised ≡ (ok 0, initialised))
init_idempotent_example =
    init_idempotent in_store environ sql_catalog opening initialised 2 creates_two

nothing_stored : IsArchivable empty_process.db
nothing_stored = record { carbon = tt; mix = tt; price = tt }

upserts-IsArchivable_example :
    IsArchivable
      (Carbon.upsert_carbon_intensity_rows memory 7 environ new_pool
        (half_hour 100 120 (some (pos 118)) ∷ [])
        empty_process).1.db
    × IsArchivable
        (Mix.upsert_generation_mix_rows memory 7 environ new_pool mixes empty_process).1.db
    × IsArchivable
        (Price.upsert_agile_price_rows memory 7 environ new_pool prices empty_process).1.db
upserts-IsArchivable_example =
    upserts-IsArchivable memory 7 environ new_pool (half_hour 100 120 (some (pos 118)) ∷ []) mixes
      prices empty_process nothing_stored
