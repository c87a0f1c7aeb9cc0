-- ===== src/Lake/Catalog.antt =====
-- gridpulse/storage/iceberg.py: the process-wide catalog; and scripts/init_iceberg_tables.py, which
-- creates its tables. PyIceberg's catalog and the environment are parameters.
pub mod Created
pub mod Init
use Prim.Native.String.{◌++◌}
use gridpulse.Prelude.{
  ℕ, ◌+◌, String, ◌≡◌, Bool, true, false, Option, none, some, List, [], ◌∷◌, Result, ok, raise, Exc,
  Exec, continue, runtime_error, namespace_exists, table_exists, exit_code, str_eq, ◌||◌,
  if◌then◌else◌,
}
use gridpulse.Storage.Pool.{truthy}
use gridpulse.Lake.Schemas.{Schema, PartitionSpec, tables}

abbrev pub namespace : String
namespace = "gridpulse"

-- `H` is the type of catalogs, `W` that of what they keep.
pub record CatalogProcess (H W : Type 0) : Type 0 where
  pub catalog : Option H
  pub store : W

abbrev pub warehouse_of : Option String → Result String
warehouse_of none = raise runtime_error
warehouse_of (some bucket) = ok ("s3://" ++ (bucket ++ "/"))

module _ (environ : String → Option String) where
  unfoldable pub r2_warehouse_uri : Result String
  r2_warehouse_uri = warehouse_of (truthy (environ "R2_BUCKET"))

  -- the keyword arguments of the catalog
  abbrev properties :
      Option String
      → Option String
      → Option String
      → Option String
      → Result (List (String × String))
  properties (some uri) (some endpoint) (some key) (some secret) = elim r2_warehouse_uri [
    | raise e ↦ raise e
    | ok warehouse ↦ ok (
        ("uri", uri)
        ∷ ("warehouse", warehouse)
        ∷ ("s3.endpoint", endpoint)
        ∷ ("s3.access-key-id", key)
        ∷ ("s3.secret-access-key", secret)
        ∷ ("s3.region", "auto")
        ∷ ("init_catalog_tables", "true")
        ∷ [])
  ]
  properties uri endpoint key secret = raise runtime_error

  unfoldable pub catalog_properties : Result (List (String × String))
  unfolding r2_warehouse_uri
  catalog_properties =
      properties (truthy (environ "ICEBERG_CATALOG_URI")) (truthy (environ "R2_ENDPOINT"))
        (truthy (environ "R2_ACCESS_KEY_ID")) (truthy (environ "R2_SECRET_ACCESS_KEY"))

  -- `sql_catalog` is PyIceberg's `SqlCatalog`.
  module _ {H W : Type 0} (sql_catalog : String → List (String × String) → Exec W H) where
    abbrev pub opened : Result H × W → Exec (CatalogProcess H W) H
    opened (ok h, w) s = (ok h, record { catalog = some h; store = w })
    opened (raise e, w) s = (raise e, record s { store = w })

    abbrev pub open_catalog : Result (List (String × String)) → Exec (CatalogProcess H W) H
    open_catalog (raise e) s = (raise e, s)
    open_catalog (ok given) s = opened (sql_catalog namespace given s.store) s

    abbrev pub keep_or_open : Option H → Exec (CatalogProcess H W) H
    keep_or_open (some h) s = (ok h, s)
    keep_or_open none s = open_catalog catalog_properties s

    unfoldable pub get_catalog : Exec (CatalogProcess H W) H
    unfolding catalog_properties
    get_catalog s = keep_or_open s.catalog s

unfoldable pub close_catalog : {H W : Type 0} → Exec (CatalogProcess H W) (Unit {0})
close_catalog s = (ok tt, record s { catalog = none })

-- What PyIceberg documents of the two methods: each raises its error where the namespace or the
-- table is there, and changes nothing; where it returns, it has added that one.
pub record Catalogs (H W : Type 0) : Type 0 where
  pub create_namespace : H → String → Exec W (Unit {0})
  pub create_table : H → String → Schema → PartitionSpec → Exec W (Unit {0})
  pub has_namespace : H → W → String → Bool
  pub has_table : H → W → String → Bool
  pub refuses_namespace :
      (h : H) (name : String) (w : W)
      → has_namespace h w name ≡ true
      → create_namespace h name w ≡ (raise namespace_exists, w)
  pub refused_namespace :
      (h : H) (name : String) (w w' : W)
      → create_namespace h name w ≡ (raise namespace_exists, w')
      → has_namespace h w name ≡ true
  pub adds_namespace :
      (h : H) (name : String) (w w' : W)
      → create_namespace h name w ≡ (ok tt, w')
      → (has_namespace h w' name ≡ true) × ((t : String) → has_table h w' t ≡ has_table h w t)
  pub refuses_table :
      (h : H) (name : String) (schema : Schema) (spec : PartitionSpec) (w : W)
      → has_table h w name ≡ true
      → create_table h name schema spec w ≡ (raise table_exists, w)
  pub refused_table :
      (h : H) (name : String) (schema : Schema) (spec : PartitionSpec) (w w' : W)
      → create_table h name schema spec w ≡ (raise table_exists, w')
      → has_table h w name ≡ true
  pub adds_table :
      (h : H) (name : String) (schema : Schema) (spec : PartitionSpec) (w w' : W)
      → create_table h name schema spec w ≡ (ok tt, w')
      → ((t : String) → has_table h w' t ≡ (str_eq name t || has_table h w t))
        × ((n : String) → has_namespace h w' n ≡ has_namespace h w n)

-- f"{NAMESPACE}.{name}"
abbrev pub identifier : String → String
identifier name = namespace ++ ("." ++ name)

abbrev pub is_namespace_exists : Exc → Bool
is_namespace_exists namespace_exists = true
is_namespace_exists e = false

abbrev pub is_table_exists : Exc → Bool
is_table_exists table_exists = true
is_table_exists e = false

-- the `try` around each creation; what a table adds to the count
abbrev pub namespace_tried : {W : Type 0} → Result (Unit {0}) × W → Result (Unit {0}) × W
namespace_tried (ok u, w) = (ok tt, w)
namespace_tried (raise e, w) = (if is_namespace_exists e then ok tt else raise e, w)

abbrev pub counted : {W : Type 0} → Result (Unit {0}) × W → Result ℕ × W
counted (ok u, w) = (ok 1, w)
counted (raise e, w) = (if is_table_exists e then ok 0 else raise e, w)

module _ {H W : Type 0} (lib : Catalogs H W) where
  -- the loop, with the count so far
  unfoldable pub create_each : H → List (String × Schema × PartitionSpec) → ℕ → Exec W ℕ
  create_each h [] new_count w = (ok new_count, w)
  create_each h ((name, schema, spec) ∷ rest) new_count w =
      continue (counted (lib.create_table h (identifier name) schema spec w))
        λ one w'. create_each h rest (new_count + one) w'

  unfoldable pub create_all : H → Exec W ℕ
  create_all h w =
      continue (namespace_tried (lib.create_namespace h namespace w))
        λ _ w'. create_each h tables 0 w'

  -- the rest of `init`, on the store of the catalog
  abbrev pub on_store : H → Exec (CatalogProcess H W) ℕ
  on_store h s = let (r, w) = create_all h s.store in (r, record s { store = w })

  module _ (environ : String → Option String)
      (sql_catalog : String → List (String × String) → Exec W H) where
    unfoldable pub init : Exec (CatalogProcess H W) ℕ
    unfolding create_all get_catalog
    init s = continue (get_catalog environ sql_catalog s) on_store

    unfoldable pub main : Exec (CatalogProcess H W) ℕ
    unfolding init
    main s = let (r, s') = init s in (exit_code r, s')
