-- ===== src/Lake/Iceberg.antt =====
-- A table of PyIceberg, as gridpulse/storage/iceberg.py gives it: a parameter, with what its
-- documentation says of the three ways to change it.
use gridpulse.Prelude.{◌≡◌, ◌⊎◌, ◌↔◌, Bool, false, List, Result, ok, In}

-- `Row` are the rows. Each change is one commit: it is made whole, or it raises and the table is
-- as it was; building the Arrow table from the rows raises where they do not fit the schema.
pub record Iceberg (Row : Type 0) : Type 1 where
  pub Table : Type 0
  pub scan : Table → List Row
  -- `table.append(pa.Table.from_pylist(rows, schema=…))`
  pub append : List Row → Table → Result Table
  -- `table.overwrite(df=pa.Table.from_pylist(rows, schema=…), overwrite_filter=…)`
  pub overwrite : (Row → Bool) → List Row → Table → Result Table
  -- `table.delete(delete_filter=…)`
  pub delete : (Row → Bool) → Table → Result Table
  pub append_scan :
      (rows : List Row) (t u : Table)
      → append rows t ≡ ok u
      → (x : Row) → In x (scan u) ↔ (In x rows ⊎ In x (scan t))
  pub overwrite_scan :
      (p : Row → Bool) (rows : List Row) (t u : Table)
      → overwrite p rows t ≡ ok u
      → (x : Row) → In x (scan u) ↔ (In x rows ⊎ (In x (scan t) × (p x ≡ false)))
  pub delete_scan :
      (p : Row → Bool) (t u : Table)
      → delete p t ≡ ok u
      → (x : Row) → In x (scan u) ↔ (In x (scan t) × (p x ≡ false))
