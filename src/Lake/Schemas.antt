-- ===== src/Lake/Schemas.antt =====
-- gridpulse/storage/iceberg_schemas.py: the schemas and the partition specs of the archive, and
-- which rows they take.
pub mod Archivable
use gridpulse.Prelude.{
  ℕ, String, ℤ, Bool, true, false, Option, none, some, List, [], ◌∷◌, leb, ◌&&◌, pos_part, neg_part,
  str_eq, if◌then◌else◌,
}

-- PyIceberg's types, of those that the schemas use.
pub data IcebergType : Type 0 where
  integer_type timestamptz_type float_type string_type : IcebergType

pub record NestedField : Type 0 where
  pub field_id : ℕ
  pub name : String
  pub field_type : IcebergType
  pub required : Bool

pub data Transform : Type 0 where
  day_transform : Transform

pub record PartitionField : Type 0 where
  pub source_id : ℕ
  pub partition_id : ℕ
  pub transform : Transform
  pub partition_name : String

abbrev pub Schema : Type 0
Schema = List NestedField

abbrev pub PartitionSpec : Type 0
PartitionSpec = List PartitionField

abbrev pub field : ℕ → String → IcebergType → Bool → NestedField
field i name t required = record { field_id = i; name = name; field_type = t; required = required }

abbrev by_day : ℕ → PartitionSpec
by_day source =
    record {
      source_id = source;
      partition_id = 1000;
      transform = day_transform;
      partition_name = "period_start_utc_day";
    }
    ∷ []

unfoldable pub carbon_intensity_schema : Schema
carbon_intensity_schema =
    field 1 "region_id" integer_type true
    ∷ field 2 "period_start_utc" timestamptz_type true
    ∷ field 3 "period_end_utc" timestamptz_type true
    ∷ field 4 "forecast_gco2_per_kwh" integer_type true
    ∷ field 5 "actual_gco2_per_kwh" integer_type false
    ∷ field 6 "intensity_index" string_type true
    ∷ []

unfoldable pub carbon_intensity_partition_spec : PartitionSpec
carbon_intensity_partition_spec = by_day 2

unfoldable pub generation_mix_schema : Schema
generation_mix_schema =
    field 1 "period_start_utc" timestamptz_type true
    ∷ field 2 "gas_mw" float_type true
    ∷ field 3 "coal_mw" float_type true
    ∷ field 4 "nuclear_mw" float_type true
    ∷ field 5 "wind_mw" float_type true
    ∷ field 6 "wind_embedded_mw" float_type true
    ∷ field 7 "hydro_mw" float_type true
    ∷ field 8 "imports_mw" float_type true
    ∷ field 9 "biomass_mw" float_type true
    ∷ field 10 "other_mw" float_type true
    ∷ field 11 "solar_mw" float_type true
    ∷ field 12 "storage_mw" float_type true
    ∷ field 13 "total_generation_mw" float_type true
    ∷ field 14 "neso_carbon_intensity_gco2_per_kwh" float_type true
    ∷ []

unfoldable pub generation_mix_partition_spec : PartitionSpec
generation_mix_partition_spec = by_day 1

unfoldable pub agile_price_schema : Schema
agile_price_schema =
    field 1 "region_id" integer_type true
    ∷ field 2 "period_start_utc" timestamptz_type true
    ∷ field 3 "period_end_utc" timestamptz_type true
    ∷ field 4 "price_pence_per_kwh_inc_vat" float_type true
    ∷ field 5 "price_pence_per_kwh_exc_vat" float_type true
    ∷ []

unfoldable pub agile_price_partition_spec : PartitionSpec
agile_price_partition_spec = by_day 2

-- The registry, in its order.
unfoldable pub tables : List (String × Schema × PartitionSpec)
tables =
    ("carbon_intensity", carbon_intensity_schema, carbon_intensity_partition_spec)
    ∷ ("generation_mix", generation_mix_schema, generation_mix_partition_spec)
    ∷ ("agile_price", agile_price_schema, agile_price_partition_spec)
    ∷ []

-- A value of a column as psycopg reads it: an integer, a TIMESTAMPTZ, a REAL, a TEXT, or NULL.
pub data Value (R : Type 0) : Type 0 where
  null : Value R
  int : ℤ → Value R
  timestamp : ℕ → Value R
  real : R → Value R
  text : String → Value R

-- IntegerType is 32-bit signed.
abbrev pub is_int32 : ℤ → Bool
is_int32 a = leb (pos_part a) 2_147_483_647 && leb (neg_part a) 2_147_483_648

abbrev pub is_nullable : NestedField → Bool
is_nullable f = if f.required then false else true

module _ {R : Type 0} where
  unfoldable pub lookup : String → List (String × Value R) → Option (Value R)
  lookup k [] = none
  lookup k ((j, v) ∷ rest) = if str_eq j k then some v else lookup k rest

  -- a value of the type of its column
  abbrev pub is_typed : IcebergType → Value R → Bool
  is_typed integer_type (int a) = is_int32 a
  is_typed timestamptz_type (timestamp t) = true
  is_typed float_type (real x) = true
  is_typed string_type (text s) = true
  is_typed t v = false

  -- a key that is missing is a null, which only a column that is not required takes
  abbrev pub is_taken : NestedField → Option (Value R) → Bool
  is_taken f none = is_nullable f
  is_taken f (some null) = is_nullable f
  is_taken f (some v) = is_typed f.field_type v

  unfoldable pub conforms : Schema → List (String × Value R) → Bool
  unfolding lookup
  conforms [] row = true
  conforms (f ∷ fs) row = is_taken f (lookup f.name row) && conforms fs row

-- the schema has a column of this name
unfoldable pub has_column : String → Schema → Bool
has_column k [] = false
has_column k (f ∷ fs) = if str_eq f.name k then true else has_column k fs

-- no key of the row is left out
unfoldable pub covers : {R : Type 0} → Schema → List (String × Value R) → Bool
unfolding has_column
covers schema [] = true
covers schema ((k, v) ∷ rest) = has_column k schema && covers schema rest
