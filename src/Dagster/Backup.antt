-- ===== src/Dagster/Backup.antt =====
-- gridpulse/dagster_defs/backup_assets.py: the nightly dump of Postgres and its upload. Processes,
-- files and boto3 are parameters; the uploads that are tried are kept beside the rest of the world.
pub mod Dump
pub mod Uploads
use Prim.Native.String.{◌++◌}
use gridpulse.Prelude.{
  required, ℕ, ◌+◌, String, ℤ, pos, negsuc, Bool, true, false, Option, none, some, List, [], ◌∷◌,
  length, Result, ok, raise, Exc, os_error, key_error, runtime_error, Exec, continue, ltb, ◌==◌,
  str, if◌then◌else◌,
}
use mathlib.Core.List.{◌++◌ as append}
use gridpulse.Heartbeat.{Observed, with_heartbeat}
use gridpulse.Dagster.Metadata.{Metadata, text, int, float}

abbrev pub backup_prefix : String
backup_prefix = "backups/postgres"

-- `datetime.now(UTC).date()`
pub record Date : Type 0 where
  pub year : ℕ
  pub month : ℕ
  pub day : ℕ

-- f"{n:02d}"
abbrev two_digits : ℕ → String
two_digits n = if ltb n 10 then "0" ++ str n else str n

-- f"{n:04d}"
abbrev four_digits : ℕ → String
four_digits n =
    if ltb n 100 then "00" ++ two_digits n else if ltb n 1000 then "0" ++ str n else str n

abbrev pub isoformat : Date → String
isoformat d = four_digits d.year ++ ("-" ++ (two_digits d.month ++ ("-" ++ two_digits d.day)))

unfoldable pub backup_key : Date → String
backup_key today =
    backup_prefix
    ++ ("/"
        ++ (four_digits today.year
            ++ ("/" ++ (two_digits today.month ++ ("/" ++ (isoformat today ++ ".sql.gz"))))))

unfoldable pub local_path_of : Date → String
local_path_of today = "/tmp/gridpulse-pg-" ++ (isoformat today ++ ".sql.gz")

-- What the code calls. `W` is the world, `P` are processes, `C` clients of boto3. `chunks` is what
-- `read(65536)` gives until it gives nothing; `exits` is what leaving the `with` statement does with
-- the file and the process.
pub record Machine (W P C : Type 0) : Type 0 where
  pub gzip_open : String → Exec W (Unit {0})
  pub popen : List String → Exec W P
  pub chunks : P → List (List ℕ)
  pub gz_write : String → List ℕ → Exec W (Unit {0})
  pub wait : P → Exec W ℤ
  pub exits : String → Exec W (Unit {0})
  pub getsize : String → Exec W ℕ
  pub client : List (String × String) → Exec W C
  pub upload : C → String → String → String → Exec W (Unit {0})
  pub unlink : String → Exec W (Unit {0})

pub record Bucket (W : Type 0) : Type 0 where
  pub world : W
  pub uploads : List (String × String × String)

abbrev pub is_zero : ℤ → Bool
is_zero (pos n) = n == 0
is_zero (negsuc n) = false

abbrev pub on_world : {W A : Type 0} → Exec W A → Exec (Bucket W) A
on_world f s = let (r, w) = f s.world in (r, record s { world = w })

-- `with contextlib.suppress(OSError)`
abbrev pub is_os_error : Exc → Bool
is_os_error os_error = true
is_os_error e = false

abbrev pub suppressed : {W : Type 0} → Result (Unit {0}) × W → Result (Unit {0}) × W
suppressed (ok u, w) = (ok u, w)
suppressed (raise e, w) = (if is_os_error e then ok tt else raise e, w)

module _ {W P C : Type 0} (machine : Machine W P C) where
  -- the loop, with the bytes written so far
  unfoldable pub pump : String → List (List ℕ) → ℕ → Exec W ℕ
  pump dest_path [] written w = (ok written, w)
  pump dest_path (chunk ∷ rest) written w =
      continue (machine.gz_write dest_path chunk w)
        λ _ w'. pump dest_path rest (written + length chunk) w'

  abbrev pub dump_command : String → List String
  dump_command database_url =
      "pg_dump" ∷ "--no-owner" ∷ "--no-privileges" ∷ "-Z" ∷ "0" ∷ database_url ∷ []

  -- the body of the `with` statement
  abbrev pub piped : String → P → Exec W ℕ
  piped dest_path proc w = continue (pump dest_path (machine.chunks proc) 0 w) λ written w'.
      continue (machine.wait proc w')
        λ returncode w''. (if is_zero returncode then ok written else raise runtime_error, w'')

  abbrev pub left : String → Result ℕ × W → Result ℕ × W
  left dest_path (r, w) = continue (machine.exits dest_path w) λ _ w'. (r, w')

  unfoldable pub dump_to_gzip : String → String → Exec W ℕ
  unfolding pump
  dump_to_gzip database_url dest_path w = continue (machine.gzip_open dest_path w) λ _ w'.
      continue (machine.popen (dump_command database_url) w')
        λ proc w''. left dest_path (piped dest_path proc w'')

  abbrev pub upload_file : C → String → String → String → Exec (Bucket W) (Unit {0})
  upload_file r2 path bucket key s =
      let (r, w) = machine.upload r2 path bucket key s.world in
      (r, record { world = w; uploads = append s.uploads ((path, bucket, key) ∷ []) })

  module _ (environ : String → Option String) where
    abbrev r2_settings :
        Result String → Result String → Result String → Result (List (String × String))
    r2_settings (ok endpoint) (ok key) (ok secret) = ok (
        ("endpoint_url", endpoint)
        ∷ ("aws_access_key_id", key)
        ∷ ("aws_secret_access_key", secret)
        ∷ ("region_name", "auto")
        ∷ [])
    r2_settings endpoint key secret = raise key_error

    abbrev client_of : Result (List (String × String)) → Exec W C
    client_of (ok settings) w = machine.client settings w
    client_of (raise e) w = (raise e, w)

    unfoldable pub r2_client : Exec W C
    r2_client = client_of (
        r2_settings (required (environ "R2_ENDPOINT")) (required (environ "R2_ACCESS_KEY_ID"))
          (required (environ "R2_SECRET_ACCESS_KEY")))

    -- `ratio a b` is `round(a / b, 2)`, and `zero` is `0.0`.
    module _ {F : Type 0} (ratio : ℕ → ℕ → F) (zero_ : F) (today : Date) where
      abbrev pub backup_metadata : ℕ → ℕ → Metadata F
      backup_metadata raw_bytes compressed_bytes =
          ("date", text (isoformat today))
          ∷ ("r2_key", text (backup_key today))
          ∷ ("raw_bytes", int (pos raw_bytes))
          ∷ ("compressed_bytes", int (pos compressed_bytes))
          ∷ (
            "compression_ratio",
            float (if compressed_bytes == 0 then zero_ else ratio raw_bytes compressed_bytes),
          )
          ∷ []

      -- from the upload on
      abbrev pub sent_to : String → ℕ → ℕ → C → Exec (Bucket W) (Metadata F)
      sent_to bucket raw_bytes compressed_bytes r2 s =
          continue (upload_file r2 (local_path_of today) bucket (backup_key today) s) λ _ s'.
            continue (on_world (λ w. suppressed (machine.unlink (local_path_of today) w)) s')
              λ _ s''. (ok (backup_metadata raw_bytes compressed_bytes), s'')

      -- from the check of the size on
      abbrev pub checked : String → ℕ → ℕ → Exec (Bucket W) (Metadata F)
      checked bucket raw_bytes compressed_bytes s =
          if ltb compressed_bytes 1_000_000
          then (raise runtime_error, s)
          else continue (on_world r2_client s) (sent_to bucket raw_bytes compressed_bytes)

      abbrev pub dumped : String → String → Exec (Bucket W) (Metadata F)
      dumped database_url bucket s =
          continue (on_world (dump_to_gzip database_url (local_path_of today)) s) λ raw_bytes s'.
            continue (on_world (machine.getsize (local_path_of today)) s')
              (checked bucket raw_bytes)

      abbrev pub with_settings : Result String → Result String → Exec (Bucket W) (Metadata F)
      with_settings (ok database_url) (ok bucket) s = dumped database_url bucket s
      with_settings (raise e) bucket s = (raise e, s)
      with_settings (ok database_url) (raise e) s = (raise e, s)

      -- the body of the asset
      unfoldable pub backup : Exec (Bucket W) (Metadata F)
      unfolding dump_to_gzip r2_client
      backup = with_settings (required (environ "DATABASE_URL")) (required (environ "R2_BUCKET"))

      unfoldable pub backup_postgres :
          (String → String)
          → (String → List String → Result (Unit {0}))
          → Exec (Observed (Bucket W)) (Metadata F)
      backup_postgres strip get = with_heartbeat environ strip get "backup_postgres" backup
