-- ===== src/Lake/Catalog/Init.antt =====
-- What `init` of scripts/init_iceberg_tables.py leaves, and that it is idempotent.
use gridpulse.Prelude.{
  ℕ, String, ◌≡◌, refl, ap, sym, ◌∙◌, inl, inr, arith, Bool, true, Option, some, none, List, length,
  Result, ok, raise, Exec, All, ◌||◌,
}
use mathlib.Core.Path.{subst}
use gridpulse.Ingestion.Fetch.Rows.{continue-ok}
use gridpulse.Lake.Schemas.{tables}
use gridpulse.Lake.Catalog.{
  namespace, CatalogProcess, get_catalog, Catalogs, identifier, namespace_tried, create_all,
  on_store, init, opened, open_catalog, keep_or_open, catalog_properties,
}
use gridpulse.Lake.Catalog.Created.{
  HasDistinct, is_one_of, missing, Adds, namespace_tried-ok, create_each-Adds, create_each-none,
  missing-same,
}

tables-HasDistinct : HasDistinct tables
unfolding tables
tables-HasDistinct = ((refl, (refl, tt)), ((refl, tt), (tt, tt)))

or_true : (a b : Bool) → a ≡ true → (a || b) ≡ true
or_true a b h = rw h refl

module _ {H W : Type 0} (lib : Catalogs H W) (h : H) where
  open lib use {has_table, has_namespace}

  all_present :
      (w w' : W) → Adds lib h tables w w' → All (λ t. has_table h w' (identifier t.0) ≡ true) tables
  unfolding tables
  all_present w w' a = (
    a (identifier "carbon_intensity"),
    (a (identifier "generation_mix"), (a (identifier "agile_price"), tt)),
  )

  namespace_there :
      (w w' : W) (u : Unit {0})
      → namespace_tried (lib.create_namespace h namespace w) ≡ (ok u, w')
      → (has_namespace h w' namespace ≡ true) × ((t : String) → has_table h w' t ≡ has_table h w t)
  namespace_there w w' u e = elim (namespace_tried-ok _ u w' e) [
    | inl made ↦ lib.adds_namespace h namespace w w' made
    | inr found ↦
        let there = lib.refused_namespace h namespace w w' found in
        let still : w' ≡ w =
          ap (λ x. x.1) (sym found ∙ lib.refuses_namespace h namespace w there) in
        (
          subst (λ x. has_namespace h x namespace ≡ true) (sym still) there,
          λ t. ap (λ x. has_table h x t) still,
        )
  ]

  create_all-Adds :
      (n : ℕ) (w w' : W)
      → create_all lib h w ≡ (ok n, w')
      → (n ≡ length (missing lib h w tables))
        × Adds lib h tables w w'
        × (create_all lib h w' ≡ (ok 0, w'))
  unfolding create_all
  create_all-Adds n w w' e =
      let (u, w₁, first, rest) =
        continue-ok (namespace_tried (lib.create_namespace h namespace w)) _ e in
      let (named, same) = namespace_there w w₁ u first in
      let (counts, adds, kept) = create_each-Adds lib h tables 0 n w₁ w' tables-HasDistinct rest in
      let adds' : Adds lib h tables w w' =
        λ t. adds t ∙ ap (λ b. is_one_of t tables || b) (same t) in
      (
        omega (arith, counts) ∙ ap length (missing-same lib h tables w w₁ same),
        adds',
        rw (lib.refuses_namespace h namespace w' (kept namespace ∙ named))
            (create_each-none lib h tables 0 w' (all_present w w' adds')),
      )

  on_store-ok :
      (n : ℕ) (s s' : CatalogProcess H W)
      → on_store lib h s ≡ (ok n, s')
      → (create_all lib h s.store ≡ (ok n, s'.store)) × (s'.catalog ≡ s.catalog)
  on_store-ok n s s' e = (
    ap (λ (x : Result ℕ × CatalogProcess H W). (x.0, x.1.store)) e,
    sym (ap (λ (x : Result ℕ × CatalogProcess H W). x.1.catalog) e),
  )

module _ {H W : Type 0} (lib : Catalogs H W) (environ : String → Option String)
    (sql_catalog : String → List (String × String) → Exec W H) where
  open lib use {has_table}

  -- What is opened is kept.
  abbrev Opens : Result H × CatalogProcess H W → Type 0
  Opens (ok h, s) = s.catalog ≡ some h
  Opens (raise e, s) = Unit {0}

  opened-Opens :
      (r : Result H × W) (s : CatalogProcess H W) → Opens (opened environ sql_catalog r s)
  opened-Opens (ok h, w) s = refl
  opened-Opens (raise e, w) s = tt

  open_catalog-Opens :
      (r : Result (List (String × String))) (s : CatalogProcess H W)
      → Opens (open_catalog environ sql_catalog r s)
  open_catalog-Opens (ok given) s = opened-Opens (sql_catalog namespace given s.store) s
  open_catalog-Opens (raise e) s = tt

  keep_or_open-Opens :
      (o : Option H) (s : CatalogProcess H W)
      → s.catalog ≡ o
      → Opens (keep_or_open environ sql_catalog o s)
  keep_or_open-Opens (some h) s e = e
  keep_or_open-Opens none s e = open_catalog-Opens (catalog_properties environ) s

  get_catalog-kept :
      (h : H) (s : CatalogProcess H W)
      → s.catalog ≡ some h
      → get_catalog environ sql_catalog s ≡ (ok h, s)
  unfolding get_catalog
  get_catalog-kept h s e = rw e refl

  get_catalog-Opens :
      (s s' : CatalogProcess H W) (h : H)
      → get_catalog environ sql_catalog s ≡ (ok h, s')
      → s'.catalog ≡ some h
  unfolding get_catalog
  get_catalog-Opens s s' h e = subst Opens e (keep_or_open-Opens s.catalog s refl)

  -- An `init` that returns went through a catalog `h`, which the process then keeps, and whose
  -- store was `w` when the tables were looked at: it returns how many of the three tables were
  -- missing from `w`; the tables are then those of `w` and the three; and another `init` creates
  -- nothing, returns 0 and changes nothing.
  pub init_idempotent :
      (s s' : CatalogProcess H W) (n : ℕ)
      → init lib environ sql_catalog s ≡ (ok n, s')
      → (h : H) × (w : W) × (s'.catalog ≡ some h)
        × (get_catalog environ sql_catalog s ≡ (ok h, record { catalog = some h; store = w }))
        × (n ≡ length (missing lib h w tables))
        × ((name : String)
            → has_table h s'.store name ≡ (is_one_of name tables || has_table h w name))
        × (init lib environ sql_catalog s' ≡ (ok 0, s'))
  unfolding init
  init_idempotent s s' n e =
      let (h, m, first, rest) = continue-ok (get_catalog environ sql_catalog s) (on_store lib) e in
      let opened_ = get_catalog-Opens s m h first in
      let (created, same) = on_store-ok lib h n m s' rest in
      let (counts, adds, again) = create_all-Adds lib h n m.store s'.store created in
      let kept = same ∙ opened_ in
      (
        h,
        m.store,
        kept,
        first ∙ ap (λ o. (ok h, record { catalog = o; store = m.store })) opened_,
        counts,
        adds,
        rw (get_catalog-kept h s' kept)
            (ap (λ (x : Result ℕ × W). (x.0, record s' { store = x.1 })) again),
      )
